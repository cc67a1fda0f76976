-- ===== src/Cna.antt =====
-- ulocks/src/cna.c: an MCS lock that keeps the waiters of other NUMA nodes in a second queue.
pub mod Memory
pub mod Mutex
pub mod Rows
pub mod Successor
pub mod Handover
pub mod Flush
pub mod Facts
pub mod Moves
pub mod Steps
pub mod Exclusion
