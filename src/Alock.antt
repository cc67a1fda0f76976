-- ===== src/Alock.antt =====
-- ulocks/src/alockepfl.c: an array of flags, one for each thread that may wait.
pub mod Mutex
pub mod Facts
pub mod Moves
pub mod Exclusion
