-- ===== src/Store.antt =====
-- The PostgreSQL tables that the credit services read and write, as the row types of
-- typescript/src/db-types.ts, credits.ts, credit-pack-funding.ts, clawbacks.ts and annual.ts declare
-- them, and the transaction in which a service runs.
--
-- Ids, keys and invoice names are only compared and ordered, so they are naturals (their place in
-- the order of the column). Instants are naturals (microseconds). A `bigint` column that the schema
-- keeps non-negative is a natural.
mod Changes
mod Rows
mod Transaction
pub mod Tables
pub mod Frames
pub mod Runs
pub use Changes.*
pub use Rows.*
pub use Transaction.*
