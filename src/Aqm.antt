-- ===== src/Aqm.antt =====
-- ulocks/src/aqm.c: the blocking ShflLock.
pub mod Memory
pub mod Shuffle
pub mod Mutex
pub mod Exclusion
pub mod Wonode
pub mod Stealing
pub mod Cares
pub mod Wakeup
