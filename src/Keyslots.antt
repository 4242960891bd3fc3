-- ===== src/Keyslots.antt =====
-- The list of keyslot contexts of blivet/devicelibs/crypto.py.
pub mod Contexts
pub mod Order
pub mod Keyfiles
mod Tests
