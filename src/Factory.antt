-- ===== src/Factory.antt =====
-- The DripFactory contract (contracts/factory/src): it deploys, funds and indexes streams.
pub mod Storage
pub mod Ttl
pub mod Governance
pub mod Query
pub mod Deploy
pub mod Creation
pub mod Admin
pub mod Paging
pub mod Walker
pub mod Coverage
pub mod Opening
pub mod Checks
pub mod Escrow
pub mod Solvency
pub mod Acceptance
pub mod Registry
pub mod Operation
pub mod Log
pub mod Maintenance
pub mod Refinement
pub mod Queries
pub mod Halt
pub mod Fees
pub mod Signature
pub mod Digest
