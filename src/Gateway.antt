-- ===== src/Gateway.antt =====
-- The gateway conversation of rmsgw/gateway.c.
pub mod Relay
pub mod Conversation
pub mod Passing
pub mod Handshake
pub mod States
