-- ===== src/Packets.antt =====
-- src/packets: messages, their wire structures, the conversion between the two, and the builder.
pub mod Internal
pub mod Message
pub mod Bytes
pub mod Convert
pub mod Builder
