-- ===== src/Stream.antt =====
-- The DripStream contract (contracts/stream/src): one escrowed payment stream.
pub mod Storage
pub mod State
pub mod Lifetime
pub mod Math
pub mod Events
pub mod Setup
pub mod Payments
pub mod Lifecycle
pub mod Settlement
pub mod Totals
pub mod Views
pub mod Rebate
pub mod RebateBounds
pub mod Accrual
pub mod Flags
pub mod Pausing
pub mod Overrun
pub mod EarlyPause
pub mod PausedTime
pub mod Withdrawal
pub mod Shares
pub mod Balances
pub mod Cancellation
pub mod Switches
pub mod Terminal
pub mod Clawback
pub mod Creation
pub mod Run
pub mod Invariant
pub mod Funding
pub mod Handover
pub mod Preservation
pub mod History
pub mod Solvency
pub mod Sparing
pub mod Terms
pub mod Phases
pub mod Escrow
pub mod Claim
pub mod Branches
pub mod Receipts
pub mod Release
pub mod Retention
pub mod Authority
pub mod Address
pub mod EventLog
pub mod Earnings
pub mod EventCount
pub mod EventHistory
pub mod LegacyKeys
