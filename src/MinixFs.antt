-- ===== src/MinixFs.antt =====
-- The read-only Minix v1 file system of minixfs.py.
pub mod Format
pub mod Partition
pub mod Disk
pub mod Files
pub mod Bitmap
pub mod Dir
mod Tests
