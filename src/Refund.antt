-- ===== src/Refund.antt =====
-- `CreditService.refund` of typescript/src/credits.ts: a product refund returns each allocation to the
-- source that it came from, as far as that source is still valid, and reverses the debts that were
-- collected for it.
mod Collections
mod Restore
pub mod Service
pub mod Debits
pub mod Quiet
pub mod Load
pub mod Restorations
unfoldable pub use Collections.*
unfoldable pub use Restore.*
unfoldable pub use Service.*
