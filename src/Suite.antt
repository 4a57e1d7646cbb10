-- ===== src/Suite.antt =====
-- Test groups and their execution: group.cpp, testRef.cpp, testResults.cpp and the loop of
-- tnvme.cpp that runs the tests.
pub mod Ref
pub mod Group
pub mod Results
pub mod Test
pub mod Advance
pub mod Run
pub mod Execute
mod Tests
