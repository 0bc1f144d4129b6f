-- ===== src/Weighttp.antt =====
-- weighttp-master/src: an HTTP load generator.
pub mod Types
pub mod Number
pub mod Status
pub mod Headers
pub mod Chunks
pub mod Parser
pub mod Machine
pub mod Run
pub mod Reset
pub mod Frame
pub mod Counters
pub mod Polling
pub mod Request
pub mod Options
pub mod Split
pub mod Resolve
pub mod Pool
pub mod Totals
mod Tests
mod Examples
