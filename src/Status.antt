-- ===== src/Status.antt =====
-- The shared status block (include/rmsshm.h, lib/statblock.c): the table of CMS hosts of the ACI
-- process and the table of gateways. `getpid` and `time` are arguments; logging is left out.
pub mod Slots
pub mod Block
pub mod Gateways
pub mod AciHosts
pub mod StateText
pub mod Attach
pub mod Segment
