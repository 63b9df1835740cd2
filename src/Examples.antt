-- ===== src/Examples.antt =====
-- Concrete instances of what the contracts take from outside, and their calls and theorems on
-- concrete inputs.
pub mod Table
pub mod Fixtures
pub mod Payments
pub mod States
pub mod Phases
pub mod Branches
pub mod Governors
pub mod Factories
pub mod Rebates
pub mod Escrows
pub mod Lifetimes
pub mod Openings
pub mod Chains
pub mod Transfers
pub mod Oracles
pub mod Signatures
pub mod Registries
