-- ===== src/Control.antt =====
-- The controller's registers, `Singletons/registers.cpp`, and the two objects that know their
-- fields, `Singletons/ctrlrConfig.cpp` and `Singletons/ctrlrCap.cpp`.
pub mod Merge
pub mod Registers
pub mod Config
pub mod State
pub mod Cap
mod Tests
