-- ===== src/Subscriptions/Ending.antt =====
-- The end of a subscription (`SubscriptionEventProjector.subscriptionDeleted` of
-- typescript/src/subscription-projector.ts): what it leaves of the account.
use mathlib.Core.Path.{subst}
use stripe_entitlements_fast.Base.{
  ℕ, suc, ◌+◌, ◌≡◌, refl, ap, ◌∙◌, sym, inl, inr, List, [], ◌∷◌, ◌++◌, Bool, true, false, not, none,
  some, ◌==◌, arith, ltb, pos_part, neg_part, if◌then◌else◌, select, find, exists, update, sum_of,
  sum_of-snoc, ==_refl, ==_iff, Bool-cases,
}
use stripe_entitlements_fast.Store.{
  Db, Account, LedgerEntry, canceled, ok, get_db, ◌>>=◌, handled, or_raise, event_without_object,
}
use stripe_entitlements_fast.Store.Tables.Updates.{
  find-update_self, find-some, select-update_others,
}
use stripe_entitlements_fast.Store.Frames.{bind-ok}
use stripe_entitlements_fast.Spendable.{credits_are_spendable}
use stripe_entitlements_fast.Funding.{pack_balance_atoms}
use stripe_entitlements_fast.Charge.Expiry.{credits_of}
use stripe_entitlements_fast.PackEvents.{has_account_id}
use stripe_entitlements_fast.Subscriptions.{
  on_account, no_reason, account_result, customer_fits, is_own_subscription, change_account,
}
use stripe_entitlements_fast.Runtime.{
  StripeObject, SubscriptionEvent, lock_account, event_wins_account,
}
use stripe_entitlements_fast.Subscriptions.Deleted.{
  is_of_account, drop_claims, end_account, ending_entry, book_ending, is_ended_change,
  fail_by_deletion, fail_changes, is_change_incident, close_incident, resolve_changes,
  end_subscription, delete_subscription, subscription_deleted,
}
use stripe_entitlements_fast.Subscriptions.Accounts.{lock_account-id}

module _ {A : Type 0} where
  exists-select-not :
      (p : A → Bool) (rows : List A) → exists p (select (λ r. not (p r)) rows) ≡ false
  exists-select-not p [] = refl
  exists-select-not p (x ∷ xs) = ground (arith, exists-select-not p xs)

  exists-update_out :
      (p : A → Bool) (g : A → A) (rows : List A)
      → ((r : A) → p (g r) ≡ false)
      → exists p (update p g rows) ≡ false
  exists-update_out p g [] h = refl
  exists-update_out p g (x ∷ xs) h = ground (arith, h x, exists-update_out p g xs h)

-- what the entries of an account add and take
abbrev pub gained : ℕ → LedgerEntry → ℕ
gained k l = if l.account_id == k then pos_part l.delta else 0

abbrev pub spent : ℕ → LedgerEntry → ℕ
spent k l = if l.account_id == k then neg_part l.delta else 0

-- the entries of an account sum up to its balance
abbrev pub IsBooked : Account → Db → Type 0
IsBooked a db = sum_of (gained a.id) db.ledger ≡ sum_of (spent a.id) db.ledger + a.credits_balance

-- The event is about the subscription and the customer of the account, and it comes in order.
pub record IsEnding (e : SubscriptionEvent) (s : StripeObject) (a : Account) (db : Db)
    : Type 0 where
  pub event_id : ℕ
  pub identified : e.id ≡ some event_id
  pub object : e.object ≡ some s
  pub found : lock_account s s.metadata db ≡ some a
  pub own : is_own_subscription a s.id ≡ true
  pub fits : customer_fits a s.customer ≡ true
  pub wins : event_wins_account a e ≡ true

-- The account is without a plan, and the credits of its subscription are gone.
pub record HasEnded (s : StripeObject) (a : Account) (db later : Db) : Type 0 where
  pub row : Account
  pub found : find (has_account_id a.id) later.accounts ≡ some row
  pub unbound : row.subscription_id ≡ none
  pub free : row.plan_key ≡ "free"
  pub is_canceled : row.status ≡ canceled
  pub next_epoch : row.grant_epoch ≡ suc a.grant_epoch
  pub only_packs : credits_of row later ≡ pack_balance_atoms row.id db.clock db
  pub booked : IsBooked a db → IsBooked row later
  pub no_claim : exists (is_of_account a.id) later.claims ≡ false
  pub no_open_change : exists (is_ended_change a.id s.id) later.plan_changes ≡ false
  pub no_incident : exists (is_change_incident a.id) later.subscription_incidents ≡ false
  pub others :
      select (λ r. not (has_account_id a.id r)) later.accounts
      ≡ select (λ r. not (has_account_id a.id r)) db.accounts

module _ (e : SubscriptionEvent) (s : StripeObject) (a : Account) (event : ℕ) (db : Db) where
  booked_db : Db → Db
  booked_db d = record d {
    ledger = if ltb 0 a.credits_balance then d.ledger ++ ending_entry a event ∷ [] else d.ledger;
  }

  book_ending-booked_db : (d : Db) → e.id ≡ some event → book_ending e a d ≡ ok (tt, booked_db d)
  unfolding book_ending booked_db
  book_ending-booked_db d has_id = elim (Bool-cases (ltb 0 a.credits_balance)) [
    | inl left ↦ rw (left, has_id) refl
    | inr used ↦ rw used refl
  ]

  pub ended_db : Db
  ended_db = resolve_changes a.id (
      fail_changes a.id s.id
        (booked_db (change_account a.id (end_account a e) (drop_claims a.id db))))

  end_subscription-ended_db :
      e.id ≡ some event
      → end_subscription e s a db ≡ ok (account_result handled no_reason a, ended_db)
  unfolding end_subscription ended_db
  end_subscription-ended_db has_id =
      bind-ok (book_ending e a) _ (change_account a.id (end_account a e) (drop_claims a.id db)) _ tt
        (book_ending-booked_db _ has_id)

  delete_subscription-ended_db :
      e.id ≡ some event
      → is_own_subscription a s.id ≡ true
      → customer_fits a s.customer ≡ true
      → event_wins_account a e ≡ true
      → delete_subscription e s a db ≡ ok (account_result handled no_reason a, ended_db)
  unfolding delete_subscription
  delete_subscription-ended_db has_id own fits wins =
      rw (own, fits, wins) (end_subscription-ended_db has_id)

  booked-ended_db :
      sum_of (gained a.id) db.ledger ≡ sum_of (spent a.id) db.ledger + a.credits_balance
      → sum_of (gained a.id) ended_db.ledger ≡ sum_of (spent a.id) ended_db.ledger + 0
  unfolding ended_db booked_db
  booked-ended_db h = elim (Bool-cases (ltb 0 a.credits_balance)) [
    | inl left ↦ rw left (
        ground (
          arith,
          h,
          left,
          ==_refl a.id,
          sum_of-snoc (gained a.id) db.ledger (ending_entry a event),
          sum_of-snoc (spent a.id) db.ledger (ending_entry a event),
        ))
    | inr used ↦ rw used (ground (arith, h, used))
  ]

  ended_db-HasEnded :
      (d : Account) → find (has_account_id a.id) db.accounts ≡ some d → HasEnded s a db ended_db
  unfolding ended_db booked_db credits_are_spendable pack_balance_atoms
  ended_db-HasEnded d found = record {
    row = end_account a e d;
    found =
        find-update_self (has_account_id a.id) (end_account a e) db.accounts d (λ r. refl) found;
    unbound = refl;
    free = refl;
    is_canceled = refl;
    next_epoch = refl;
    only_packs = omega arith;
    booked = λ h.
        subst (λ k. sum_of (gained k) ended_db.ledger ≡ sum_of (spent k) ended_db.ledger + 0)
          (sym ((==_iff d.id a.id).0 (find-some (has_account_id a.id) db.accounts d found)))
          (booked-ended_db h);
    no_claim = exists-select-not (is_of_account a.id) db.claims;
    no_open_change =
        exists-update_out (is_ended_change a.id s.id) (fail_by_deletion db.started) db.plan_changes
          (λ c. ground arith);
    no_incident =
        exists-update_out (is_change_incident a.id) close_incident db.subscription_incidents
          (λ i. ground arith);
    others = select-update_others (has_account_id a.id) (end_account a e) db.accounts (λ r. refl);
  }

-- Where an event with an id is about the subscription and the customer of an account and wins over the
-- account, the call succeeds and is handled. The account is then canceled, on the free plan and without
-- a subscription, in the next epoch, and the credits that it can spend are those of its packs; the
-- entries of the ledger still sum up to the balance if they did before; no Checkout claims the account,
-- no change of the subscription is open and no incident of a change is; and the other accounts are as
-- they were.
pub subscription_deleted-HasEnded :
    (e : SubscriptionEvent) (s : StripeObject) (a : Account) (db : Db) (h : IsEnding e s a db)
    → (later : Db) × (subscription_deleted e db ≡ ok (account_result handled no_reason a, later))
      × HasEnded s a db later
unfolding subscription_deleted
subscription_deleted-HasEnded e s a db h =
    let row = lock_account-id s s.metadata db a h.found in
    (
      ended_db e s a h.event_id db,
      ap
            (λ o.
              (or_raise o event_without_object >>= λ t.
              get_db >>= λ d. on_account (lock_account t t.metadata d) (delete_subscription e t))
                db)
            h.object
          ∙ rw (◌>>=◌, h.found)
              (delete_subscription-ended_db e s a h.event_id db h.identified h.own h.fits h.wins),
      ended_db-HasEnded e s a h.event_id db row.0 row.1,
    )
