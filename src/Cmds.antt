-- ===== src/Cmds.antt =====
-- The NVMe commands, `Cmds/`: the command buffer and its bit fields, and the commands that tests
-- send most.
pub mod Field
pub mod Cmd
pub mod Writes
pub mod Update
pub mod Fields
pub mod Read
pub mod Write
pub mod ReadWrite
pub mod SetFeatures
pub mod Roundtrip
mod Dword12
pub mod Header
mod Tests
