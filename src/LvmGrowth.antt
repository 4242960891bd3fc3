-- ===== src/LvmGrowth.antt =====
-- The growing of logical volumes into their groups and thin pools: `grow_lvm` of blivet/partitioning.py.
pub mod Compare
pub mod Before
pub mod Sorted
pub mod Request
pub mod Grow
pub mod Thin
pub mod Safe
mod Tests
