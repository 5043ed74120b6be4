-- ===== src/Fs.antt =====
-- The file system of kernel/fs/fs.c.
pub mod Words
pub mod Bits
pub mod Bitmap
pub mod Alloc
pub mod Taken
pub mod Dinode
pub mod Fields
pub mod Stored
pub mod Bmap
pub mod Contents
pub mod Write
pub mod Chunks
pub mod Dirs
pub mod Lookup
pub mod Paths
pub mod Names
pub mod Inode
pub mod Single
pub mod Tests
pub mod Held
pub mod Refs
pub mod Balance
pub mod DiskTests
