-- ===== src/Iotop.antt =====
-- iotop-master/src: the samples of the processes, their differences, and the order they are shown in.
pub mod Types
pub mod Diff
pub mod Sort
pub mod Pids
pub mod Fetch
pub mod Loop
pub mod Prio
mod Tests
