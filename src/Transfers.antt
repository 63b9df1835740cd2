-- ===== src/Transfers.antt =====
-- src/batch_transfer_processor.rs: the batch processor and its lock.
pub mod Processor
pub mod Totals
