-- ===== src/Tests.antt =====
-- The theorems of the library on concrete inputs.
mod Strings
mod Hosts
mod Table
mod Chat
mod Files
mod Talk
mod Run
mod Start
mod Disk
mod Screen
mod Begin
