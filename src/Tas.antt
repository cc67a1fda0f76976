-- ===== src/Tas.antt =====
-- The locks that are one byte or word, taken by an atomic operation and given back by a store.
pub mod Spinlock
pub mod Ttas
pub mod Backoff
pub mod SpinlockEpfl
pub mod TtasEpfl
pub mod Exclusion
