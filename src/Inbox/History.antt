-- ===== src/Inbox/History.antt =====
-- Runs of deliveries to `EventProcessor` (typescript/src/event-processor.ts): Stripe delivers an event at
-- least once, and a delivery that fails is rolled back.
use mathlib.Core.Path.{subst}
use stripe_entitlements_fast.Base.{
  ℕ, ◌≡◌, ◌≢◌, refl, ap, ◌∙◌, sym, ◌⊎◌, inl, inr, List, [], ◌∷◌, Bool, true, false, not, ◌&&◌,
  Option, none, some, All, if◌then◌else◌, Option-cases,
}
use stripe_entitlements_fast.Store.{Db, Result, ok, err, committed}
use stripe_entitlements_fast.Store.Frames.{After}
use stripe_entitlements_fast.Inbox.Shape.{WebhookEvent}
use stripe_entitlements_fast.Inbox.{
  EventResult, Processor, has_committed_event, ignore_event, id_required, type_required, process,
}
use stripe_entitlements_fast.Inbox.Steps.{process-process_event}
use stripe_entitlements_fast.Inbox.Kept.Dispatch.{KeepsInbox}
use stripe_entitlements_fast.Inbox.Seen.{Has, process-Has}
use stripe_entitlements_fast.Inbox.Once.{process_event-Settled, claimed-Has}

abbrev pub is_id_seen : Option ℕ → Db → Bool
is_id_seen none db = false
is_id_seen (some id) db = has_committed_event id db

abbrev pub is_seen : WebhookEvent → Db → Bool
is_seen e db = is_id_seen e.id db

-- the database after the deliveries
unfoldable pub deliver_events : Processor → List WebhookEvent → Db → Db
deliver_events p [] db = db
deliver_events p (e ∷ es) db = deliver_events p es (committed (process p e) db)

-- the deliveries that put a row into the inbox
unfoldable pub applied : Processor → List WebhookEvent → Db → List WebhookEvent
applied p [] db = []
applied p (e ∷ es) db =
    let later = committed (process p e) db in
    let rest = applied p es later in
    if not (is_seen e db) && is_seen e later then e ∷ rest else rest

-- A history in which every event is new and commits.
pub data History (p : Processor) : Db → List WebhookEvent → Db → Type 0 where
  done : (db : Db) → History p db [] db
  apply :
      {db later last : Db} {es : List WebhookEvent} (e : WebhookEvent) (id : ℕ) (r : EventResult)
      → e.id ≡ some id
      → has_committed_event id db ≡ false
      → process p e db ≡ ok (r, later)
      → has_committed_event id later ≡ true
      → History p later es last
      → History p db (e ∷ es) last

-- some of the deliveries, in their order
pub data ArePart : List WebhookEvent → List WebhookEvent → Type 0 where
  none_left : ArePart [] []
  takes : {fs es : List WebhookEvent} (e : WebhookEvent) → ArePart fs es → ArePart (e ∷ fs) (e ∷ es)
  skips : {fs es : List WebhookEvent} (e : WebhookEvent) → ArePart fs es → ArePart fs (e ∷ es)

-- no two events have the same id
abbrev pub AreDistinct : List WebhookEvent → Type 0
AreDistinct [] = Unit
AreDistinct (e ∷ es) = All (λ f. f.id ≢ e.id) es × AreDistinct es

-- A delivery that is new, and commits.
record Applies (p : Processor) (e : WebhookEvent) (db later : Db) : Type 0 where
  id : ℕ
  result : EventResult
  has_id : e.id ≡ some id
  new : has_committed_event id db ≡ false
  runs : process p e db ≡ ok (result, later)
  seen : has_committed_event id later ≡ true

ends : Result (EventResult × Db) → Db → Db
ends (ok (r, later)) db = later
ends (err x) db = db

module _ (p : Processor) (law : KeepsInbox p.projector) where
  committed-ends :
      (e : WebhookEvent) (db : Db) (r : Result (EventResult × Db))
      → process p e db ≡ r
      → committed (process p e) db ≡ ends r db
  unfolding ends
  committed-ends e db (ok (r, later)) h = rw (committed, h) refl
  committed-ends e db (err x) h = rw (committed, h) refl

  -- a delivery changes nothing, or it is new and commits
  abbrev Delivers : WebhookEvent → Db → Type 0
  Delivers e db =
      (committed (process p e) db ≡ db)
      ⊎ ((later : Db) × (committed (process p e) db ≡ later) × Applies p e db later)

  claimed-Delivers :
      (e : WebhookEvent) (db : Db) (id : ℕ) (r : Result (EventResult × Db))
      → e.id ≡ some id
      → has_committed_event id db ≡ false
      → process p e db ≡ r
      → After (Has id) r
      → Delivers e db
  unfolding ends
  claimed-Delivers e db id (ok (r, later)) has_id new h seen = inr (
    later,
    committed-ends e db _ h,
    record { id = id; result = r; has_id = has_id; new = new; runs = h; seen = seen },
  )
  claimed-Delivers e db id (err x) has_id new h seen = inl (committed-ends e db _ h)

  delivered : (e : WebhookEvent) (db : Db) → Delivers e db
  unfolding process ends
  delivered e db = elim (Option-cases e.id) [
    | inl none_id ↦ inl (committed-ends e db (ok (ignore_event id_required, db)) (rw none_id refl))
    | inr (id, has_id) ↦ elim (Option-cases e.type) [
      | inl none_type ↦
          inl (
            committed-ends e db (ok (ignore_event type_required, db)) (rw (has_id, none_type) refl))
      | inr (t, has_type) ↦
          let h = process-process_event p e db id t has_id has_type in
          elim (process_event-Settled p id t e db) [
            | inl settled ↦ inl (committed-ends e db _ (h ∙ settled.2))
            | inr claimed ↦
                claimed-Delivers e db id _ has_id claimed.1 h (claimed-Has p id t e law db claimed)
          ]
    ]
  ]

  not_both : (b : Bool) → (not b && b) ≡ false
  not_both true = refl
  not_both false = refl

  seen_as :
      (e : WebhookEvent) (id : ℕ) (db : Db) (b : Bool)
      → e.id ≡ some id
      → has_committed_event id db ≡ b
      → is_seen e db ≡ b
  seen_as e id db b has_id h = ap (λ o. is_id_seen o db) has_id ∙ h

  deliver_events-History :
      (es : List WebhookEvent) (db : Db) → History p db (applied p es db) (deliver_events p es db)
  unfolding applied deliver_events
  deliver_events-History [] db = done db
  deliver_events-History (e ∷ es) db = elim (delivered e db) [
    | inl same ↦ rw (same, not_both (is_seen e db)) (deliver_events-History es db)
    | inr (later, is_later, new) ↦
        rw
          (
            is_later,
            seen_as e new.id db false new.has_id new.new,
            seen_as e new.id later true new.has_id new.seen,
          )
          (apply e new.id new.result new.has_id new.new new.runs new.seen
            (deliver_events-History es later))
  ]

  -- an event of the history is none that the inbox has
  History-Fresh :
      (k : ℕ) (db last : Db) (es : List WebhookEvent)
      → History p db es last
      → Has k db
      → All (λ f. f.id ≢ some k) es
  History-Fresh k db last [] h has = tt
  History-Fresh k db last es (apply {later = later} e id r has_id new runs seen rest) has = (
    λ same. cc,
    History-Fresh k later last _ rest
        (subst (After (Has k)) runs ((process-Has k p law e).after db has)),
  )

  History-AreDistinct :
      (db last : Db) (es : List WebhookEvent) → History p db es last → AreDistinct es
  History-AreDistinct db last [] h = tt
  History-AreDistinct db last _ (apply {later = later} {es = es} e id r has_id new runs seen rest) =
      (
        subst (λ o. All (λ f. f.id ≢ o) es) (sym has_id) (History-Fresh id later last es rest seen),
        History-AreDistinct later last es rest,
      )

if-ArePart :
    (b : Bool) (e : WebhookEvent) (fs es : List WebhookEvent)
    → ArePart fs es
    → ArePart (if b then e ∷ fs else fs) (e ∷ es)
if-ArePart true e fs es h = takes e h
if-ArePart false e fs es h = skips e h

applied-ArePart : (p : Processor) (es : List WebhookEvent) (db : Db) → ArePart (applied p es db) es
unfolding applied
applied-ArePart p [] db = none_left
applied-ArePart p (e ∷ es) db =
    let later = committed (process p e) db in
    if-ArePart (not (is_seen e db) && is_seen e later) e (applied p es later) es
      (applied-ArePart p es later)

-- The deliveries have the effect of a history of some of them, in their order and with different ids,
-- each of which is new to the inbox and commits.
pub record ExactlyOnce (p : Processor) (es : List WebhookEvent) (db : Db) : Type 0 where
  pub history : History p db (applied p es db) (deliver_events p es db)
  pub part : ArePart (applied p es db) es
  pub distinct : AreDistinct (applied p es db)

-- Where the projector leaves the inbox to the processor, the events may be delivered in any order and
-- any number of times, and deliveries may fail: the database is then the one that a history of some of
-- the deliveries leaves, in their order and with different ids, in which each is new to the inbox and
-- commits.
pub deliver_events-ExactlyOnce :
    (p : Processor) (law : KeepsInbox p.projector) (es : List WebhookEvent) (db : Db)
    → ExactlyOnce p es db
deliver_events-ExactlyOnce p law es db =
    let history = deliver_events-History p law es db in
    record {
      history = history;
      part = applied-ArePart p es db;
      distinct = History-AreDistinct p law db _ _ history;
    }
