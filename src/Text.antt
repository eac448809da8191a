-- ===== src/Text.antt =====
-- Text utilities of lib/: character sets, trimming, the symbol table and variable substitution.
pub mod CharSet
pub mod Trim
pub mod Symbol
pub mod Var
pub mod Convert
