-- ===== src/Login.antt =====
-- The login at a CMS: reading lines (lib/readln.c), the challenge response (lib/sglchallenge.c) and
-- the secure gateway login (lib/cmslogin.c).
pub mod Readln
pub mod Challenge
pub mod Sgl
pub mod Expect
