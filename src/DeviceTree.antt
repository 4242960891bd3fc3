-- ===== src/DeviceTree.antt =====
-- blivet/devicetree.py, with the links between devices of blivet/devices/device.py and
-- blivet/devices/lib.py.
pub mod Store
pub mod Registry
pub mod Register
pub mod Links
pub mod View
pub mod Changed
pub mod Refine
pub mod Cancel
pub mod Ancestors
pub mod Refuse
pub mod Creation
pub mod Session
pub mod Hide
pub mod Hidden
pub mod Hiding
pub mod Unhide
pub mod Remove
pub mod Removed
pub mod Removal
pub mod Recursive
mod Tests
