-- ===== src/Dht/Event.antt =====
-- src/dht/dht_event.rs: what the subscribers of a node are told.
use rustydht_lib.Packets.Message.{Message}

pub record MessageReceivedEvent : Type 0 where
  pub message : Message

pub data DhtEventType : Type 0 where
  message_received : MessageReceivedEvent → DhtEventType

pub record DhtEvent : Type 0 where
  pub event_type : DhtEventType
