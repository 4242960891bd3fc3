-- ===== src/Actions.antt =====
-- blivet/deviceaction.py and blivet/actionlist.py: the actions, how they depend on and obsolete one
-- another, and the list that prunes and sorts them.
pub mod Model
pub mod Requires
pub mod Obsoletes
pub mod Find
pub mod Mutual
pub mod List
pub mod Prune
pub mod Sort
pub mod Cycle
mod Tests
