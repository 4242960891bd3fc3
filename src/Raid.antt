-- ===== src/Raid.antt =====
-- blivet/devicelibs/raid.py: the RAID levels, their size arithmetic and the lookup of a level.
pub mod Level
pub mod Sizes
pub mod Rounding
pub mod Capacity
pub mod Bounds
pub mod Space
pub mod Lookup
mod Tests
