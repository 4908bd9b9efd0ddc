-- ===== src/Tests.antt =====
-- Concrete inputs: runs of the definitions, and the theorems at inputs that meet their hypotheses.
mod Data
mod Credits
mod Annual
mod Calendar
mod Debts
mod Invoices
mod Numbers
mod Plans
mod Refunds
mod Subscriptions
mod Updates
mod Packs
mod Entitlements
mod Inbox
mod Kernel
mod Portal
