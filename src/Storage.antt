-- ===== src/Storage.antt =====
-- src/storage: what a node remembers.
pub mod Vec
pub mod Sort
pub mod Buckets
pub mod NodeWrapper
pub mod NodeBucketStorage
pub mod OutboundRequestStorage
pub mod Throttler
pub mod Lru
pub mod PeerStorage
