-- ===== src/Tests.antt =====
-- The theorems at concrete inputs: rows, storages and answers as a member may meet them.
mod Fixtures
mod StorageRuns
mod Selections
mod Polls
pub mod Boot
mod Checks
mod Installed
mod Interleavings
mod Serving
