-- ===== src/Ticket.antt =====
-- ulocks/src/ticket.c: the ticket lock, with the bans that BLOCKING_FAIRNESS adds to it, and
-- ulocks/src/ticketepfl.c.
pub mod Mutex
pub mod MutexEpfl
pub mod Dispenser
pub mod Laws
pub mod Change
pub mod ChangeEpfl
pub mod Invariant
pub mod Exclusion
pub mod Fairness
pub mod Epfl
