-- ===== src/Aci.antt =====
-- The process that reports channels and versions to Winlink (rmsgw_aci/).
pub mod Client
pub mod Counts
pub mod Due
pub mod Frame
pub mod Hooks
pub mod Script
