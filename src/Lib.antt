-- ===== src/Lib.antt =====
-- A model of rustydht-lib, a Rust library for BitTorrent's mainline DHT: ids and their distance, the
-- routing table, the messages, and the code between them.
--
-- The parts, and the files that model them:
-- - src/common/id.rs: Common/Id (bytes, exclusive or, order, common prefix) and Common/Magic (ids
--   that fit an IP address, mutants). src/common/node.rs and the addresses of the standard library
--   are in Common/Net, src/errors.rs is in Common/Error, and signed integers are in Common/Int.
-- - src/storage/buckets.rs: Storage/Buckets has `Buckets` and every method. The loops of
--   `handle_bucket_overflow` are `overflow_loop` (the outer one), `overflow_step` (one round of it),
--   `move_out` (the inner one, from the last index down) and `trim`. Storage/Vec has the operations on
--   vectors, Storage/Sort the sort of slices.
-- - src/storage/node_bucket_storage.rs: Storage/NodeBucketStorage, the buckets of verified and of
--   unverified nodes; src/storage/node_wrapper.rs: Storage/NodeWrapper.
-- - src/storage/outbound_request_storage.rs: Storage/OutboundRequestStorage, the requests that wait
--   for a response.
-- - src/packets/internal.rs: Packets/Internal, the structures that go over the wire.
-- - src/packets/public.rs: Packets/Message (the messages), Packets/Bytes (addresses, nodes and
--   samples as bytes) and Packets/Convert (`into_serde_message` and `from_serde_message`).
-- - src/packets/builder.rs: Packets/Builder, with the setters in Packets/Builder/Setters.
-- - src/common/ipv4_addr_src.rs: Common/Consensus, the votes for our address.
-- - src/storage/throttler.rs: Storage/Throttler. A reference into the table is an index and the
--   record there; `scan` is the loop of `check_throttle`.
-- - src/storage/peer_storage.rs: Storage/PeerStorage, on the cache of Storage/Lru.
-- - src/dht/dht.rs: Dht/State (`DHTState`, the tokens, `common_request_handling`, the rotation of the
--   secrets, `periodic_ip4_maintenance`), Dht/Handlers (`accept_single_packet`, one function for each
--   request), Dht/Requests (the requests we send, and `common_send_and_handle_response` from the reply
--   on), Dht/Maintenance (`DHT::new`, the loop over incoming packets, and what the rounds of
--   the periodic tasks do to the state). Dht/Interfaces has the traits `IPV4AddrSource` and
--   `NodeStorage` with the laws that a node needs, and Dht/Interfaces/Instances the types that
--   implement them. Dht/Runs puts the operations under the lock of the state together: any
--   sequence of them is a run of the node.
-- - src/dht/socket.rs: Dht/Socket, what is stored, delivered and dropped.
-- - src/dht/operations.rs: Dht/Operations, the rounds and replies of the searches. A search is a
--   sequence of them, in any order (`run` of Dht/Operations/Searching and PeersSearching).
-- - src/dht/dht_settings.rs, src/dht/builder.rs, src/dht/dht_event.rs: Dht/Settings, Dht/Builder,
--   Dht/Event.
-- Prelude has the tests, lists, counting and bits that they share; Tests applies the theorems to
-- concrete data, with the insertion sort of Storage/Sort/Insertion and the cache of
-- Storage/Lru/ListCache.
--
-- How the code is translated: a method that changes its object returns the new object. A byte is a
-- number, and predicates (IsByte, IsId, IsSocketAddr) say that it is below 256, that an id has 20
-- bytes, and so on. A `Result` is Common/Error's; an `Option` around the result of a method is a panic
-- of the code, where the file says so. A reference that `get_mut` returns is modelled together with
-- the write that the caller does through it. The clock (`Instant::now`) and the random generator are
-- arguments: an instant is a number of ticks, nanoseconds in Dht, and is never too large. Log lines are
-- left out. A method that changes a cache behind a shared reference returns the new cache as well.
--
-- Fuel: the outer loop of `handle_bucket_overflow` runs on 162 rounds. There are at most 161 buckets,
-- one for each number of bits that an id can share with ours, other than all, and the one behind
-- them; so the loop ends before its fuel does.
--
-- Parameters: the checksum of the crc crate, the unstable sort of the standard library, whose
-- laws (the result is a rearrangement, and it ascends) are those that its documentation gives, the
-- cache of the lru crate with its documented laws (a key is found after it is put, unless there is no
-- room at all; another key is dropped only by a `put` of a new key into a full cache), the partial
-- shuffle of the rand crate, of which nothing is assumed, and whether the system binds a socket to an
-- address.
--
-- Not modelled: the bytes of the serde_bencode crate; the UDP socket, timers, tasks and closed channels
-- of tokio in src/dht, and the lookup of names, which are asynchronous I/O; src/shutdown.rs, which
-- wraps such channels.
pub mod Prelude
pub mod Common
pub mod Packets
pub mod Storage
pub mod Dht
pub mod Tests
