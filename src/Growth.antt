-- ===== src/Growth.antt =====
-- The growing of requests into free space, of blivet/partitioning.py.
pub mod Chunk
pub mod Grow
pub mod Conserve
pub mod Limit
pub mod Room
pub mod Pool
pub mod Pass
pub mod Passes
pub mod Overdraw
pub mod Sets
pub mod Share
pub mod Kept
pub mod Managed
pub mod Balanced
pub mod Known
pub mod Returns
pub mod Completes
pub mod Sample
mod Tests
