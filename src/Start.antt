-- ===== src/Start.antt =====
-- The start of the three programs: rmsgw/rmsgw.c, rmsgw_aci/rmsgw_aci.c and rmsgwmon/rmsgwmon.c.
pub mod Options
pub mod Gateway
pub mod Aci
pub mod Ready
pub mod Monitor
