-- ===== src/BinaryMessage.antt =====
-- src/domain/binary_message.rs: the length-prefixed binary protocol.
pub mod Types
pub mod Wire
pub mod Client
pub mod Daemon
pub mod Packet
