-- ===== src/Chain.antt =====
-- The contracts together: one factory, the governors and the streams that it deployed, over one
-- ledger of tokens.
pub mod Steps
pub mod Streams
pub mod Soundness
pub mod Creation
pub mod Calls
pub mod Solvency
pub mod Registry
pub mod RegistryCalls
pub mod Records
pub mod Payment
