-- ===== src/Session.antt =====
-- A run of the gateway process: the session with a host, and the loop over the hosts.
pub mod Cms
pub mod Main
pub mod Outcome
pub mod Block
pub mod Counters
pub mod Connect
pub mod Datagram
pub mod Greeting
pub mod Rotation
pub mod Logs
pub mod Login
