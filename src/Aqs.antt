-- ===== src/Aqs.antt =====
-- ulocks/src/aqs.c: the non-blocking ShflLock.
pub mod Memory
pub mod Shuffle
pub mod Mutex
pub mod Exclusion
pub mod Wonode
pub mod Queue
pub mod Pointers
