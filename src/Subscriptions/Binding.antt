-- ===== src/Subscriptions/Binding.antt =====
-- A completed Checkout binds a subscription once (`SubscriptionEventProjector.checkoutCompleted` of
-- typescript/src/subscription-projector.ts).
use stripe_entitlements_fast.Base.{ℕ, ◌≤◌, ◌≡◌, true, false, not, none, some, select, find, exists}
use stripe_entitlements_fast.Store.{Db, Account, CheckoutClaim}
use stripe_entitlements_fast.Store.Tables.{count}
use stripe_entitlements_fast.PackEvents.{has_account_id}
use stripe_entitlements_fast.Subscriptions.{customer_fits, change_account}
use stripe_entitlements_fast.Runtime.{StripeObject, SubscriptionEvent}
use stripe_entitlements_fast.Subscriptions.Deleted.{is_of_account}
use stripe_entitlements_fast.Subscriptions.Checkout.{
  owns_claim, is_free_for, bind, spend_claim, has_ids,
}

-- The session names the account in its metadata, and the account's claim in its own or by its token; the
-- account has one claim, and no other subscription or customer.
pub record IsBinding (e : SubscriptionEvent) (s : StripeObject) (a : Account) (c : CheckoutClaim)
    (db : Db) : Type 0 where
  pub session : ℕ
  pub subscription : ℕ
  pub object : e.object ≡ some s
  pub has_session : s.id ≡ some session
  pub has_subscription : s.direct_subscription ≡ some subscription
  pub named : s.metadata.account_id ≡ some a.id
  pub found : find (has_account_id a.id) db.accounts ≡ some a
  pub fits : customer_fits a s.customer ≡ true
  pub claimed : find (is_of_account a.id) db.claims ≡ some c
  pub one_claim : count (is_of_account a.id) db.claims ≤ 1
  pub owns : owns_claim session s c ≡ true
  pub free : is_free_for subscription a ≡ true
  pub unused : exists (has_ids a.id s.customer subscription) db.accounts ≡ false

-- The account has the subscription and the customer of the session, and no claim.
pub record IsBound (s : StripeObject) (a : Account) (db later : Db) (row : Account) : Type 0 where
  pub found : find (has_account_id a.id) later.accounts ≡ some row
  pub has_subscription : row.subscription_id ≡ s.direct_subscription
  pub has_customer : row.customer_id ≡ s.customer
  pub same_balance : row.credits_balance ≡ a.credits_balance
  pub no_claim : find (is_of_account a.id) later.claims ≡ none
  pub others :
      select (λ r. not (has_account_id a.id r)) later.accounts
      ≡ select (λ r. not (has_account_id a.id r)) db.accounts

module _ (e : SubscriptionEvent) (s : StripeObject) (a : Account) (c : CheckoutClaim) (db : Db)
    (h : IsBinding e s a c db) where
  bound_row : Account
  bound_row = bind s.customer h.subscription a

  bound_db : Db
  bound_db =
      spend_claim a.id h.session c.claim_token
        (change_account a.id (bind s.customer h.subscription) db)
