-- ===== src/Clh.antt =====
-- ulocks/src/clh.c and ulocks/src/clhepfl.c: a queue in which each thread waits on the node of the
-- thread before it, and takes that node over.
pub mod Memory
pub mod Mutex
pub mod Stage
pub mod Facts
pub mod Moves
pub mod Turns
pub mod Inherit
pub mod Wake
pub mod Run
pub mod MutexEpfl
pub mod Steps
pub mod StepsEpfl
pub mod Exclusion
