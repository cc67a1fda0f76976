-- ===== src/Interpose.antt =====
-- ulocks/src/interpose.c: how the calls of POSIX reach the lock that stands behind a mutex.
pub mod Table
pub mod Calls
pub mod Locks
pub mod Invariant
pub mod Lookup
pub mod Faithful
pub mod Steps
pub mod Leave
pub mod Arrive
pub mod Held
pub mod Exclusion
pub mod Start
pub mod Numbers
