-- ===== src/Fat32.antt =====
-- The FAT32 driver, src/fat32.c and src/header/filesystem/fat32.h.
pub mod Types
pub mod Codec
pub mod Driver
pub mod Links
pub mod Memory
pub mod Init
pub mod Read
pub mod Write
pub mod Delete
pub mod RoundTrip
pub mod Files
pub mod Tests
