-- ===== src/Ttasrw.antt =====
-- ulocks/src/ttasrw.c: a mutex like that of ttas.c, and a reader-writer lock in one 16-bit word.
pub mod Mutex
pub mod RwLock
pub mod Exclusion
pub mod Overflow
