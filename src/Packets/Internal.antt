-- ===== src/Packets/Internal.antt =====
-- src/packets/internal.rs: what is written to the wire. A byte string is a list of bytes. The
-- bencode crate turns these into bytes and back; it is not under the repository.
use rustydht_lib.Prelude.{ℕ, Option, List}
use rustydht_lib.Common.Int.{ℤ}

-- `serde_bencode::value::Value`: the crate builds and reads integers and byte strings; anything
-- else is an error to it.
pub data Value : Type 0 where
  int : ℤ → Value
  bytes : List ℕ → Value
  list dict : Value

pub record DhtPingArguments : Type 0 where
  pub id : List ℕ

pub record DhtFindNodeArguments : Type 0 where
  pub id : List ℕ
  pub target : List ℕ

pub record DhtGetPeersArguments : Type 0 where
  pub id : List ℕ
  pub info_hash : List ℕ

pub record DhtSampleInfoHashesRequestArguments : Type 0 where
  pub id : List ℕ
  pub target : List ℕ

pub record DhtAnnouncePeerRequestArguments : Type 0 where
  pub id : List ℕ
  pub info_hash : List ℕ
  pub port : ℕ
  pub token : List ℕ
  pub implied_port : Option ℕ

pub data DhtRequestSpecific : Type 0 where
  ping : DhtPingArguments → DhtRequestSpecific
  find_node : DhtFindNodeArguments → DhtRequestSpecific
  get_peers : DhtGetPeersArguments → DhtRequestSpecific
  announce_peer : DhtAnnouncePeerRequestArguments → DhtRequestSpecific
  sample_info_hashes : DhtSampleInfoHashesRequestArguments → DhtRequestSpecific

pub record DhtPingResponseArguments : Type 0 where
  pub id : List ℕ

pub record DhtFindNodeResponseArguments : Type 0 where
  pub id : List ℕ
  pub nodes : List ℕ

pub record DhtGetPeersResponseArguments : Type 0 where
  pub id : List ℕ
  pub token : List ℕ
  pub nodes : Option (List ℕ)
  pub values : Option (List (List ℕ))

pub record DhtSampleInfoHashesResponseArguments : Type 0 where
  pub id : List ℕ
  pub interval : ℤ
  pub nodes : List ℕ
  pub num : ℤ
  pub samples : List ℕ

pub data DhtResponseSpecific : Type 0 where
  get_peers : DhtGetPeersResponseArguments → DhtResponseSpecific
  sample_info_hashes : DhtSampleInfoHashesResponseArguments → DhtResponseSpecific
  find_node : DhtFindNodeResponseArguments → DhtResponseSpecific
  ping : DhtPingResponseArguments → DhtResponseSpecific

pub record DhtErrorSpecific : Type 0 where
  pub error_info : List Value

pub data DhtMessageVariant : Type 0 where
  dht_request : DhtRequestSpecific → DhtMessageVariant
  dht_response : DhtResponseSpecific → DhtMessageVariant
  dht_error : DhtErrorSpecific → DhtMessageVariant

pub record DhtMessage : Type 0 where
  pub transaction_id : List ℕ
  pub version : Option (List ℕ)
  pub variant : DhtMessageVariant
  pub ip : Option (List ℕ)
  pub read_only : Option ℤ
