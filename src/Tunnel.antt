-- ===== src/Tunnel.antt =====
-- The managed tunnel (src/tunnel): the broker's limits, its relay queue, its routes.
pub mod Protocol
pub mod Limits
pub mod Relay
pub mod Broker
pub mod Operations
pub mod Calls
pub mod Headers
pub mod HostSession
pub mod Forwarding
pub mod Logging
