-- ===== src/Common.antt =====
-- src/errors.rs and src/common: the errors of the crate, addresses, ids, and nodes.
pub mod Error
pub mod Net
pub mod Id
pub mod Magic
pub mod Int
pub mod Consensus
