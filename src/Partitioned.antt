-- ===== src/Partitioned.antt =====
-- ulocks/src/partitioned.c: a ticket lock whose waiters look at slots of their own.
pub mod Mutex
pub mod Facts
pub mod Moves
pub mod Steps
pub mod Exclusion
