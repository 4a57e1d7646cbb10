-- ===== src/Cmdline.antt =====
-- `tnvmeParsers.cpp`: the parsers of the command line's arguments.
pub mod Text
pub mod Digits
pub mod Printed
pub mod Target
pub mod Words
pub mod Mmap
pub mod Skip
mod Tests
