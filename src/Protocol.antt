-- ===== src/Protocol.antt =====
-- internal/interfaces/mysql/protocol/protocol.go: the MySQL wire protocol.
pub mod Base
pub mod LenEnc
pub mod Packet
pub mod Replies
pub mod Rows
pub mod Handshake
mod Tests
