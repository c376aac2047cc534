-- ===== src/Processor/Cached.antt =====
-- The cache of decoded instructions changes nothing about a run of cpu86.py.
pub mod Blank
pub mod Footprint
pub mod Good
pub mod Fetching
pub mod Same
