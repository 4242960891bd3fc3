-- ===== src/Volumes.antt =====
-- Volume groups and the space that logical volumes take in them: blivet/devices/lvm.py.
pub mod Space
pub mod Group
pub mod Accounting
pub mod Undo
pub mod Fail
pub mod Resize
pub mod Room
pub mod SetSize
pub mod Sample
mod Tests
