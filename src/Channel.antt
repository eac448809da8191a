-- ===== src/Channel.antt =====
-- The channel file (lib/getchan.c): its entries, and the search of one by name and call sign.
pub mod File
pub mod Fields
pub mod Search
pub mod Walk
pub mod Rewind
