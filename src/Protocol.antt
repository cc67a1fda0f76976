-- ===== src/Protocol.antt =====
-- What the locks of ulocks/src share: the shape of their code and of the POSIX calls around it, and
-- the proofs that follow from laws of one step of one thread.
pub mod Code
pub mod Cases
pub mod Word
pub mod Wrapper
pub mod Local
pub mod Refinement
pub mod Induct
pub mod Token
pub mod Handover
