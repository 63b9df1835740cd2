-- ===== src/Oracle.antt =====
-- src/oracle.rs: the parts of the price oracle that are whole. The file is compiled by no crate, and
-- `get_twap_price` is two versions run together, of which the second half is taken here.
pub mod Feed
pub mod Older
pub mod Payout
pub mod Prices
pub mod Conversion
