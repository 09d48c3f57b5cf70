-- ===== src/Storage.antt =====
-- The files of the rooms (src/storage/).
pub mod RoomStore
pub mod Paths
pub mod BoardroomStore
pub mod ForumStore
pub mod Lock
