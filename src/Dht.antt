-- ===== src/Dht.antt =====
-- src/dht: the node of the DHT.
pub mod Settings
pub mod Event
pub mod Interfaces
pub mod State
pub mod Handlers
pub mod Invariant
pub mod Replies
pub mod Accepting
pub mod Requests
pub mod Responses
pub mod Tokens
pub mod Maintenance
pub mod Builder
pub mod Runs
pub mod Loop
pub mod Socket
pub mod Operations
