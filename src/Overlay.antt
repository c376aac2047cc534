-- ===== src/Overlay.antt =====
-- The writable overlay of kvfs.py over the read-only file system. An inode object is named by its
-- number, under which the table holds it; the clock is an argument of the operations that stamp a
-- time.
pub mod Dict
pub mod State
pub mod Lookup
pub mod Ops
pub mod Buffers
pub mod Contents
pub mod Finds
pub mod Entries
pub mod Names
pub mod Unlink
mod Tests
