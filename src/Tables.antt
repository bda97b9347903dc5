-- ===== src/Tables.antt =====
-- The tables that the generators under simulator/generators read and write. A row is a record with the
-- columns that they use.
pub mod Goods
pub mod Tasks
pub mod Shipping
pub mod Transport
