-- ===== src/Inbox/Once.antt =====
-- An event is processed once (`EventProcessor.process` of typescript/src/event-processor.ts).
use mathlib.Core.Bool.{true≢false}
use mathlib.Core.Path.{subst}
use stripe_entitlements_fast.Base.{
  ℕ, ◌≡◌, refl, ◌∙◌, sym, ◌⊎◌, Bool, true, false, inl, inr, Bool-cases, Option-cases,
}
use stripe_entitlements_fast.Store.{Db, Outcome, ignored, duplicate, Result, ok}
use stripe_entitlements_fast.Store.Frames.{After}
use stripe_entitlements_fast.Inbox.Steps.{claimed-process_event, process-process_event}
use stripe_entitlements_fast.Inbox.Kept.Dispatch.{KeepsInbox}
use stripe_entitlements_fast.Inbox.Shape.{EventType, WebhookEvent}
use stripe_entitlements_fast.Inbox.Seen.{Has, claim_event-Has, checked_event-Has}
use stripe_entitlements_fast.Inbox.{
  EventResult, Processor, has_committed_event, claim_current, ignore_event, repeated, id_required,
  type_required, lease_lost, claim_event, process_event, process,
}

-- a result that is neither handled nor replayed
abbrev pub is_passed_over : Outcome → Bool
is_passed_over ignored = true
is_passed_over duplicate = true
is_passed_over _ = false

ok-later :
    {A : Type 0} (a b : A) (db later : Db)
    → ◌≡◌ {A = Result (A × Db)} (ok (a, db)) (ok (b, later))
    → db ≡ later
ok-later a b db later h = cc

module _ (p : Processor) (id : ℕ) (t : EventType) (e : WebhookEvent) where
  -- a delivery that changes nothing and is passed over
  abbrev pub Settled : Db → Type 0
  Settled db =
      (r : EventResult) × (is_passed_over r.outcome ≡ true)
      × (process_event p id t e db ≡ ok (r, db))

  lost-Settled : (db : Db) → claim_current e db ≡ false → Settled db
  unfolding process_event
  lost-Settled db lost = (ignore_event lease_lost, refl, rw lost refl)

  committed-Settled : (db : Db) → claim_current e db ≡ true → Has id db → Settled db
  unfolding process_event
  committed-Settled db current has = (repeated, refl, rw (current, has) refl)

  abbrev pub IsClaimed : Db → Type 0
  IsClaimed db = (claim_current e db ≡ true) × (has_committed_event id db ≡ false)

  pub process_event-Settled : (db : Db) → Settled db ⊎ IsClaimed db
  process_event-Settled db = elim (Bool-cases (claim_current e db)) [
    | inr lost ↦ inl (lost-Settled db lost)
    | inl current ↦ elim (Bool-cases (has_committed_event id db)) [
      | inl has ↦ inl (committed-Settled db current has)
      | inr new ↦ inr (current, new)
    ]
  ]

  Has-Settled : (db : Db) → Has id db → Settled db
  Has-Settled db has = elim (process_event-Settled db) [
    | inl settled ↦ settled
    | inr claimed ↦ absurd (true≢false (sym has ∙ claimed.1))
  ]

  pub claimed-Has :
      (law : KeepsInbox p.projector) (db : Db)
      → IsClaimed db
      → After (Has id) (process_event p id t e db)
  claimed-Has law db claimed =
      subst (After (Has id)) (sym (claimed-process_event p id t e db claimed.0 claimed.1)) (
        (checked_event-Has id id p law t e).after (claim_event id e.livemode db)
          (claim_event-Has id e.livemode db))

  process_event_twice :
      (law : KeepsInbox p.projector) (db later : Db) (r : EventResult)
      → process_event p id t e db ≡ ok (r, later)
      → Settled later
  process_event_twice law db later r h = elim (process_event-Settled db) [
    | inl settled ↦ subst Settled (ok-later _ _ _ _ (sym settled.2 ∙ h)) settled
    | inr claimed ↦ Has-Settled later (subst (After (Has id)) h (claimed-Has law db claimed))
  ]

-- Where the projector leaves the inbox to the processor, an event whose first delivery has committed is
-- passed over when it is delivered again: the second delivery is answered as ignored or as a duplicate
-- and changes nothing.
pub process_twice :
    (p : Processor) (law : KeepsInbox p.projector) (e : WebhookEvent) (db later : Db)
    (r : EventResult)
    → process p e db ≡ ok (r, later)
    → (again : EventResult) × (is_passed_over again.outcome ≡ true)
      × (process p e later ≡ ok (again, later))
unfolding process
process_twice p law e db later r h = elim (Option-cases e.id) [
  | inl none_id ↦ (ignore_event id_required, refl, rw none_id refl)
  | inr (id, has_id) ↦ elim (Option-cases e.type) [
    | inl none_type ↦ (ignore_event type_required, refl, rw (has_id, none_type) refl)
    | inr (t, has_type) ↦
        let second =
          process_event_twice p id t e law db later r
            (sym (process-process_event p e db id t has_id has_type) ∙ h) in
        (second.0, second.1, process-process_event p e later id t has_id has_type ∙ second.2)
  ]
]
