-- ===== src/Examples.antt =====
-- The theorems at concrete inputs.
pub mod Disk
pub mod Runtime
pub mod Files
pub mod Paths
pub mod Modules
pub mod Calls
pub mod Streams
pub mod Runs
pub mod Vol
