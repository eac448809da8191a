-- ===== src/Config.antt =====
-- The configuration and version files: the mapping of names (lib/mapname.c) and the records that
-- are loaded with it (lib/loadconfig.c, lib/loadversion.c).
pub mod Mapname
pub mod Load
pub mod Env
pub mod Messages
