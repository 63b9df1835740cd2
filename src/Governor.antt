-- ===== src/Governor.antt =====
-- The DripGovernor contract (contracts/governor/src): roles and protocol parameters.
pub mod Storage
pub mod Role
pub mod Config
pub mod Calls
pub mod Membership
pub mod Operation
pub mod Access
pub mod Invariant
pub mod Governance
pub mod Start
pub mod Handover
