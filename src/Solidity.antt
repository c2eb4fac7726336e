-- ===== src/Solidity.antt =====
-- src/osfx_solidity.c: checksums, and numbers as text.
pub mod Crc
pub mod Text
