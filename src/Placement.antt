-- ===== src/Placement.antt =====
-- Where blivet/partitioning.py puts partitions: the order of the requests, and the type and the free
-- region of the next partition of a disk.
pub mod Compare
pub mod Antisymmetry
pub mod Disk
pub mod Slots
pub mod Best
mod Tests
