-- ===== src/Packets/Builder/Setters.antt =====
-- src/packets/builder.rs: the methods that fill a field of the builder.
use rustydht_lib.Prelude.{ℕ, Bool, some, List}
use rustydht_lib.Common.Id.{NodeId}
use rustydht_lib.Common.Int.{ℤ}
use rustydht_lib.Common.Net.{Node, SocketAddr}
use rustydht_lib.Packets.Message.{Duration}
use rustydht_lib.Packets.Builder.{MessageBuilder}

abbrev pub transaction_id : MessageBuilder → List ℕ → MessageBuilder
transaction_id b x = record b { transaction_id = some x }

abbrev pub version : MessageBuilder → List ℕ → MessageBuilder
version b x = record b { version = some x }

abbrev pub requester_ip : MessageBuilder → SocketAddr → MessageBuilder
requester_ip b x = record b { requester_ip = some x }

abbrev pub read_only : MessageBuilder → Bool → MessageBuilder
read_only b x = record b { read_only = some x }

abbrev pub sender_id : MessageBuilder → NodeId → MessageBuilder
sender_id b x = record b { sender_id = some x }

abbrev pub target : MessageBuilder → NodeId → MessageBuilder
target b x = record b { target = some x }

abbrev pub port : MessageBuilder → ℕ → MessageBuilder
port b x = record b { port = some x }

abbrev pub implied_port : MessageBuilder → Bool → MessageBuilder
implied_port b x = record b { implied_port = some x }

abbrev pub token : MessageBuilder → List ℕ → MessageBuilder
token b x = record b { token = some x }

abbrev pub nodes : MessageBuilder → List Node → MessageBuilder
nodes b x = record b { nodes = some x }

abbrev pub peers : MessageBuilder → List SocketAddr → MessageBuilder
peers b x = record b { peers = some x }

abbrev pub interval : MessageBuilder → Duration → MessageBuilder
interval b x = record b { interval = some x }

abbrev pub samples : MessageBuilder → List NodeId → MessageBuilder
samples b x = record b { samples = some x }

abbrev pub num_infohashes : MessageBuilder → ℕ → MessageBuilder
num_infohashes b x = record b { num_infohashes = some x }

abbrev pub code : MessageBuilder → ℤ → MessageBuilder
code b x = record b { code = some x }

abbrev pub description : MessageBuilder → List ℕ → MessageBuilder
description b x = record b { description = some x }
