-- ===== src/Changes.antt =====
-- What an action changes in its device, before anything is carried out: blivet/deviceaction.py,
-- blivet/devices/storage.py and blivet/formats/__init__.py.
pub mod Device
pub mod Action
pub mod Reverse
mod Tests
