-- ===== src/Annual.antt =====
-- typescript/src/annual.ts: the worker that grants the monthly slots of an annual plan. The months of
-- PostgreSQL's calendar, `timestamptz + make_interval(months => k)`, are a parameter. The candidates of
-- a scan (`dueAccounts`, `deferCandidate`) are not modelled: they order by `updated_at`.
pub mod Matching
pub mod Incidents
pub mod Grants
unfoldable pub use Matching.*
unfoldable pub use Incidents.*
unfoldable pub use Grants.*
