-- ===== src/Server.antt =====
-- The HTTP server of a room (src/server/).
pub mod Errors
pub mod Guards
pub mod WaitHub
pub mod Room
pub mod Bodies
pub mod Handlers
pub mod Routes
pub mod Views
pub mod Forum
pub mod Requests
