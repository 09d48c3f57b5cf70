-- ===== src/Protocol.antt =====
-- The protocol that the rooms' clients and servers share (src/protocol/).
pub mod Types
pub mod Attention
pub mod Validation
pub mod Messages
pub mod Mentions
pub mod Boardroom
pub mod Forum
pub mod Attendance
pub mod Urls
