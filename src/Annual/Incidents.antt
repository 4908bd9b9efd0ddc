-- ===== src/Annual/Incidents.antt =====
-- The incidents that typescript/src/annual.ts opens and resolves.
use stripe_entitlements_fast.Base.{
  ℕ, suc, List, [], ◌∷◌, ◌++◌, Bool, true, false, Option, none, some, ◌&&◌, not, ◌==◌,
  if◌then◌else◌, exists, update,
}
use stripe_entitlements_fast.Store.{
  Db, Account, Incident, IncidentKind, annual_grant_failed, annual_plan_mismatch,
}
use stripe_entitlements_fast.Annual.Matching.{same_option}

abbrev pub is_mismatch : IncidentKind → Bool
is_mismatch annual_plan_mismatch = true
is_mismatch annual_grant_failed = false

-- an open incident with the key `account:subscription`
abbrev pub is_open_mismatch : Account → Incident → Bool
is_open_mismatch a i =
    is_mismatch i.kind
    && i.account_id == a.id
    && same_option i.subscription_id a.subscription_id
    && not i.resolved

abbrev pub is_open_failure : ℕ → Incident → Bool
is_open_failure account i = not (is_mismatch i.kind) && i.account_id == account && not i.resolved

abbrev pub resolve : Incident → Incident
resolve i = record i { resolved = true }

abbrev pub see_again : Incident → Incident
see_again i = record i { seen_count = suc i.seen_count }

abbrev pub first_seen : IncidentKind → ℕ → Option ℕ → Option ℕ → Incident
first_seen kind account subscription invoice = record {
  kind = kind;
  account_id = account;
  subscription_id = subscription;
  invoice = invoice;
  seen_count = 1;
  resolved = false;
}

-- `insert ... on conflict (kind, dedupe_key) where resolved_at is null do update`
abbrev pub insert_or_see : (Incident → Bool) → Incident → List Incident → List Incident
insert_or_see is_same i is = if exists is_same is then update is_same see_again is else is ++ i ∷ []

-- `recordFailure`
unfoldable pub record_failure : ℕ → ℕ → Db → Db
record_failure account subscription db = record db {
  incidents =
      insert_or_see
        (λ i. is_open_failure account i && same_option i.subscription_id (some subscription))
        (first_seen annual_grant_failed account (some subscription) none) db.incidents;
}

-- `#recordMismatch`
unfoldable pub record_mismatch : Account → Db → Db
record_mismatch a db = record db {
  incidents =
      insert_or_see (is_open_mismatch a)
        (first_seen annual_plan_mismatch a.id a.subscription_id a.funding_invoice) db.incidents;
}

-- the update that resolves a mismatch, and `#resolveFailure`
unfoldable pub resolve_mismatch : Account → Db → Db
resolve_mismatch a db = record db { incidents = update (is_open_mismatch a) resolve db.incidents }

unfoldable pub resolve_failure : ℕ → Db → Db
resolve_failure account db = record db {
  incidents = update (is_open_failure account) resolve db.incidents;
}
