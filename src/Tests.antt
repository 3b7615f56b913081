-- ===== src/Tests.antt =====
-- Concrete data, and the theorems applied to it.
mod Data
mod Ids
mod Buckets
mod Packets
mod Requests
mod Votes
mod Throttling
mod Peers
mod Nodes
mod Loops
mod Searches
