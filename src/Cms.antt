-- ===== src/Cms.antt =====
-- The CMS hosts: the host file (lib/getcms.c), the ordered list of hosts (lib/cmsnode.c) and how the
-- one is made from the other (lib/getcmslist.c).
pub mod Node
pub mod Entry
pub mod Order
pub mod Hosts
pub mod Selection
pub mod Usable
pub mod Lookup
pub mod Rotation
