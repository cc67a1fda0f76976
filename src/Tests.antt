-- ===== src/Tests.antt =====
-- Runs on concrete inputs.
pub mod Machine
mod Locks
mod Shfl
mod Blocking
mod Tickets
mod TicketsEpfl
mod Queues
mod QueuesClh
mod Interposed
mod Slots
mod Numa
mod Sockets
mod Started
mod Passive
mod Grants
