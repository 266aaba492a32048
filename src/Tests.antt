-- ===== src/Tests.antt =====
-- The theorems at concrete inputs.
pub mod Threads
pub mod Desk
pub mod Locks
pub mod Lives
pub mod Ticks
pub mod Library
pub mod Console
pub mod Waits
pub mod Texts
pub mod Runs
pub mod Hardware
pub mod Prints
pub mod Sessions
pub mod Contexts
