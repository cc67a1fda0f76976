-- ===== src/Mcs.antt =====
-- ulocks/src/mcs.c and ulocks/src/mcsepfl.c: a queue of nodes, each of which has its own word to wait
-- on.
pub mod Memory
pub mod Mutex
pub mod MutexEpfl
pub mod Line
pub mod Stage
pub mod Facts
pub mod Moves
pub mod Invariant
pub mod Run
pub mod Steps
pub mod StepsEpfl
pub mod Exclusion
