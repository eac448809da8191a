-- ===== src/Radio.antt =====
-- The radio side of the gateway.
pub mod Sendrf
pub mod Err
