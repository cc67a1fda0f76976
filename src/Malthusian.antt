-- ===== src/Malthusian.antt =====
-- ulocks/src/malthusian.c: an MCS lock that puts surplus waiters aside, in a passive set.
pub mod Memory
pub mod Mutex
pub mod Chain
pub mod Passive
pub mod Moves
pub mod Steps
