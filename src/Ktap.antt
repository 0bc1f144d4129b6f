-- ===== src/Ktap.antt =====
-- The runtime of ktap: the memory pool, the strings and the tables of ktap-master/runtime.
pub mod Mempool
pub mod Str
pub mod Tab
mod Tests
