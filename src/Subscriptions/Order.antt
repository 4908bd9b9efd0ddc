-- ===== src/Subscriptions/Order.antt =====
-- The order and the authority of subscription events (`eventWinsAccount` of
-- typescript/src/event-processor.ts, in the handlers of subscription-projector.ts).
use stripe_entitlements_fast.Base.{
  ap, ◌∙◌, ◌⊎◌, inl, inr, arith, find, ◌≡◌, refl, List, Option, none, some, false, ℕ,
}
use stripe_entitlements_fast.Store.{
  Db, Account, LedgerEntry, CheckoutClaim, Tx, get_db, or_raise, ◌>>=◌, event_without_object,
}
use stripe_entitlements_fast.Catalog.{Plan, Interval}
use stripe_entitlements_fast.Store.Frames.{Preserves, After}
use stripe_entitlements_fast.Subscriptions.{on_account, SubscriptionResult}
use stripe_entitlements_fast.Runtime.{
  Metadata, StripeObject, SubscriptionEvent, subscription_metadata, lock_account,
  event_wins_account,
}
use stripe_entitlements_fast.Subscriptions.PaymentFailed.{fail_cycle, fail_payment, payment_failed}
use stripe_entitlements_fast.Subscriptions.Deleted.{delete_subscription, subscription_deleted}
use stripe_entitlements_fast.Subscriptions.Items.{Runtime}
use stripe_entitlements_fast.Subscriptions.Deleted.{is_of_account}
use stripe_entitlements_fast.Subscriptions.Updated.{
  Projection, authorizes, apply_update, authorized_update, update_subscription,
  subscription_updated,
}
use stripe_entitlements_fast.Subscriptions.Quiet.{
  IsQuiet, quiet_steps, refuse_event-kept, fail_update-kept, pass_over-kept,
  update_subscription-kept,
}

-- what subscription events write of the accounts
pub record Standing : Type 0 where
  pub accounts : List Account
  pub ledger : List LedgerEntry
  pub claims : List CheckoutClaim

abbrev pub standing : Db → Standing
standing db = record { accounts = db.accounts; ledger = db.ledger; claims = db.claims }

abbrev pub SameStanding : Db → Db → Type 0
SameStanding before db = standing db ≡ standing before

-- The event does not win over the account that it is about: the one that is locked by the metadata.
abbrev pub DoesNotWin : (StripeObject → Metadata) → SubscriptionEvent → Db → Type 0
DoesNotWin m e db =
    (o : StripeObject) (a : Account)
    → e.object ≡ some o
    → lock_account o (m o) db ≡ some a
    → event_wins_account a e ≡ false

module _ (P : Db → Type 0) (quiet : IsQuiet P) (e : SubscriptionEvent) where
  fail_payment-late :
      (i : StripeObject) (a : Account)
      → event_wins_account a e ≡ false
      → Preserves P (fail_payment e i a)
  unfolding fail_payment fail_cycle
  fail_payment-late i a late =
      rw late (search (quiet_steps, refuse_event-kept P quiet, fail_update-kept P quiet) depth 20)

  delete_subscription-late :
      (s : StripeObject) (a : Account)
      → event_wins_account a e ≡ false
      → Preserves P (delete_subscription e s a)
  unfolding delete_subscription
  delete_subscription-late s a late =
      rw late (search (quiet_steps, refuse_event-kept P quiet) depth 20)

  authorized_update-late :
      (s : StripeObject) (subscription : ℕ) (p : Projection) (a : Account)
      (parsed : Plan × Interval) (bound : Option ℕ)
      → event_wins_account a e ≡ false
      → Preserves P (authorized_update e s subscription p a parsed bound)
  unfolding authorized_update apply_update
  authorized_update-late s subscription p a parsed none late =
      rw late (search (quiet_steps, refuse_event-kept P quiet, pass_over-kept P quiet) depth 20)
  authorized_update-late s subscription p a parsed (some bound) late =
      rw late (pass_over-kept P quiet e a)

module _ (P : Db → Type 0) (db : Db) where
  found-After :
      (o : Option Account) (k : Account → Tx SubscriptionResult)
      → P db
      → ((a : Account) → o ≡ some a → Preserves P (k a))
      → After P (on_account o k db)
  found-After none k h f = h
  found-After (some a) k h f = (f a refl).after db h

  -- a handler that keeps a condition for the account that it locks
  locked-After :
      (object : Option StripeObject) (m : StripeObject → Metadata)
      (k : StripeObject → Account → Tx SubscriptionResult)
      → P db
      → ((o : StripeObject) (a : Account)
          → object ≡ some o
          → lock_account o (m o) db ≡ some a
          → Preserves P (k o a))
      → After P (
          (or_raise object event_without_object >>= λ o.
          get_db >>= λ d. on_account (lock_account o (m o) d) (k o))
            db)
  locked-After none m k h f = tt
  locked-After (some o) m k h f =
      found-After (lock_account o (m o) db) (k o) h (λ a found. f o a refl found)

SameStanding-IsQuiet : (before : Db) → IsQuiet (SameStanding before)
SameStanding-IsQuiet before = record { changes = λ rows db k. k; incidents = λ rows db k. k }

-- An update that does not win over the account, or that is about a subscription that is not bound to it
-- and that no claim authorises.
abbrev pub IsPowerless : SubscriptionEvent → StripeObject → Account → Option ℕ → Db → Type 0
IsPowerless e s a bound db =
    (event_wins_account a e ≡ false)
    ⊎ ((bound ≡ none)
        × ((parsed : Plan × Interval)
            → authorizes s parsed (find (is_of_account a.id) db.claims) ≡ false))

module _ (e : SubscriptionEvent) (s : StripeObject) (subscription : ℕ) (p : Projection)
    (a : Account) (parsed : Plan × Interval) (db : Db) where
  refused-After :
      (d : Db)
      → SameStanding db d
      → authorizes s parsed (find (is_of_account a.id) d.claims) ≡ false
      → After (SameStanding db) (authorized_update e s subscription p a parsed none d)
  unfolding authorized_update
  refused-After d k unauthorised =
      rw unauthorised
        ((refuse_event-kept (SameStanding db) (SameStanding-IsQuiet db) _ _ e _ _ _ a).after d k)

  authorized_update-powerless :
      (bound : Option ℕ)
      → IsPowerless e s a bound db
      → Preserves (SameStanding db) (authorized_update e s subscription p a parsed bound)
  authorized_update-powerless bound (inl late) =
      authorized_update-late (SameStanding db) (SameStanding-IsQuiet db) e s subscription p a parsed
        bound late
  authorized_update-powerless none (inr (unbound, unauthorised)) = record {
    after = λ d k. refused-After d k (
        ap (λ x. authorizes s parsed (find (is_of_account a.id) x.claims)) k ∙ unauthorised parsed);
  }
  authorized_update-powerless (some k) (inr (unbound, unauthorised)) =
      absurd (ground (arith, unbound))

-- A failed payment and the end of a subscription that do not win over the account that they are about, and
-- an update that does not win or that is about an unbound subscription that no claim of the account
-- authorises, leave every account, every entry of the ledger and every claim as they were. An event
-- does not win where it is not later, or was read from Stripe for another state of the account.
pub powerless_events-SameStanding :
    (r : Runtime) (e f : SubscriptionEvent) (db : Db)
    → DoesNotWin subscription_metadata e db
    → DoesNotWin (λ o. o.metadata) e db
    → ((o : StripeObject) (a : Account)
        → f.object ≡ some o
        → lock_account o o.metadata db ≡ some a
        → IsPowerless f o a a.subscription_id db)
    → After (SameStanding db) (payment_failed e db)
      × After (SameStanding db) (subscription_deleted e db)
      × After (SameStanding db) (subscription_updated r f db)
unfolding payment_failed subscription_deleted subscription_updated
powerless_events-SameStanding r e f db late_invoice late powerless =
    let P = SameStanding db in
    let quiet = SameStanding-IsQuiet db in
    (
      locked-After P db e.object subscription_metadata (fail_payment e) refl
          (λ o a here found. fail_payment-late P quiet e o a (late_invoice o a here found)),
      locked-After P db e.object (λ o. o.metadata) (delete_subscription e) refl
          (λ o a here found. delete_subscription-late P quiet e o a (late o a here found)),
      locked-After P db f.object (λ o. o.metadata) (update_subscription r f) refl
          (λ o a here found. update_subscription-kept P quiet r f o a (λ subscription p parsed.
            authorized_update-powerless f o subscription p a parsed db a.subscription_id
              (powerless o a here found))),
    )
