-- ===== src/Fs.antt =====
-- The file system of Assignment1/xv6-public/fs.c, above the log.
pub mod Bits
pub mod Bitmap
pub mod Blocks
pub mod Marks
pub mod Allocated
pub mod Path
pub mod Inodes
pub mod Content
pub mod Tests
