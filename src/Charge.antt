-- ===== src/Charge.antt =====
-- `CreditService.charge` of typescript/src/credits.ts: a charge takes its amount from the funding
-- that expires first, packs and subscription alike. The key has passed `validateIdempotencyKey`.
pub mod Lots
pub mod Order
pub mod Sources
pub mod Payment
pub mod Expiry
pub mod Booking
pub mod Conservation
pub mod Refusal
pub mod Replay
use stripe_entitlements_fast.Base.{
  ℕ, ◌+◌, ◌-◌, List, [], ◌∷◌, ◌++◌, Bool, true, false, not, some, none, Option, ◌&&◌, ◌||◌, ◌==◌,
  ltb, leb, if◌then◌else◌, smaller, length, select, find, exists, update, sum_of, sub_ℕ,
}
use stripe_entitlements_fast.Store.{
  Db, Account, Lot, LotStatus, lot_expired, Kind, usage, debt_collection, subscription, credit_pack,
  usage_charge, usage_event, Error, Tx, pure, raise, raise_if, get_db, modify, or_raise,
  account_not_found, amount_not_positive, amount_out_of_range, debit_disappeared, key_reused,
  subscription_not_active, entitlement_revoked, credit_window_expired, insufficient_credits,
  allocation_unsatisfied, ◌>>=◌, ◌>>◌,
}
use stripe_entitlements_fast.Spendable.{
  max_credit_atoms, is_active, credits_are_spendable, subscription_atoms,
}
use stripe_entitlements_fast.Funding.{
  is_lot_active, spendable_lots, insert_allocation, set_balance, take_from_lot,
}

pub data CreditOutcome : Type 0 where
  charged refunded replayed epoch_expired : CreditOutcome

pub record CreditResult : Type 0 where
  pub outcome : CreditOutcome
  pub balance : ℕ
  pub requested : ℕ
  pub restored : ℕ

abbrev pub is_lot_expired : LotStatus → Bool
is_lot_expired lot_expired = true
is_lot_expired _ = false

abbrev pub expires_now : ℕ → ℕ → Lot → Bool
expires_now account as_of l =
    l.account_id == account && is_lot_active l.status && leb l.expires_at as_of

abbrev pub expire_lot : Lot → Lot
expire_lot l = record l { expired = l.expired + l.remaining; status = lot_expired; remaining = 0 }

-- `#expireAccountPackLots`: whether some lot of the account has expired, now or before.
unfoldable pub expire_account_pack_lots : ℕ → ℕ → Tx Bool
expire_account_pack_lots account as_of db =
    (do
      modify (λ db. record db { lots = update (expires_now account as_of) expire_lot db.lots })
      pure (
          exists (expires_now account as_of) db.lots
          || exists (λ l. l.account_id == account && is_lot_expired l.status) db.lots))
      db

abbrev pub is_usage : Kind → Bool
is_usage usage = true
is_usage (debt_collection _) = false

-- the answer to a key that is already in the table
unfoldable pub replay_charge : Account → List Lot → ℕ → ℕ → Tx CreditResult
replay_charge account lots amount key db =
    (do
      existing ← or_raise (find (λ d. d.key == key) db.debits) debit_disappeared
      raise_if
          (not (existing.account_id == account.id)
            || not (existing.amount == amount)
            || not (is_usage existing.kind))
          key_reused
      pure (record {
        outcome = replayed;
        balance = subscription_atoms account db.clock + sum_of (λ l. l.remaining) lots;
        requested = amount;
        restored = existing.restored;
      }))
      db

-- `consumeLot`: what remains to be charged
unfoldable pub consume_lot : ℕ → ℕ → Lot → ℕ → Tx ℕ
consume_lot key account lot remaining =
    let used = smaller remaining lot.remaining in
    if remaining == 0 then pure remaining else if leb used 0 then pure remaining else (do
      take_from_lot lot.id used
      modify (insert_allocation key account (credit_pack lot.id) used)
      pure (remaining - used))

unfoldable pub consume_lots : ℕ → ℕ → List Lot → ℕ → Tx ℕ
consume_lots key account [] remaining = pure remaining
consume_lots key account (lot ∷ lots) remaining = do
  left ← consume_lot key account lot remaining
  consume_lots key account lots left

-- the column `before_subscription`
abbrev pub is_before_subscription : Option ℕ → Lot → Bool
is_before_subscription none l = true
is_before_subscription (some expires_at) l = leb l.expires_at expires_at

-- why a charge that exceeds the available credits is refused
unfoldable pub refusal : Account → Bool → ℕ → List Lot → Bool → Error
refusal account usable available lots pack_window_expired =
    if available == 0 && (length lots == 0) && not usable
    then (if not (is_active account.status) && not pack_window_expired
        then subscription_not_active
        else if account.entitlement_revoked && not pack_window_expired
        then entitlement_revoked
        else credit_window_expired)
    else insufficient_credits

-- the subscription's share of what remains, with its allocation
unfoldable pub consume_subscription : ℕ → Account → ℕ → ℕ → Tx ℕ
consume_subscription key account available remaining =
    let used = smaller remaining available in
    if ltb 0 remaining && ltb 0 available
    then (do
      modify (insert_allocation key account.id (subscription account.grant_epoch) used)
      pure used)
    else pure 0

-- the new balance of the subscription, with its ledger entry
unfoldable pub book_subscription : ℕ → Account → ℕ → ℕ → Db → Db
book_subscription key account available used db =
    if ltb 0 used
    then (let balance = available - used in
        record (set_balance account.id balance db) {
          ledger =
              db.ledger
              ++ record {
                account_id = account.id;
                delta = sub_ℕ 0 used;
                balance_after = balance;
                entitlement_units = 0;
                reason = usage_charge;
                grant_epoch = account.grant_epoch;
                event = usage_event key;
                invoice = none;
                slot = none;
              }
                ∷ [];
        })
    else db

-- the consumption of the sources in the order of their expiry
unfoldable pub consume : ℕ → Account → Bool → List Lot → ℕ → ℕ → Tx (Unit {0})
consume key account usable lots available amount =
    let before = is_before_subscription account.credit_expires_at in
    do
      left ← consume_lots key account.id (if usable then select before lots else lots) amount
      used ← consume_subscription key account available left
      rest ←
          consume_lots key account.id (if usable then select (λ l. not (before l)) lots else [])
            (left - used)
      raise_if (not (rest == 0)) allocation_unsatisfied
      modify (book_subscription key account available used)

-- the rest of `charge` once the key is claimed
unfoldable pub charge_claimed : Account → List Lot → Bool → ℕ → ℕ → Tx CreditResult
charge_claimed account lots pack_window_expired amount key db =
    let usable = credits_are_spendable account db.clock in
    let subscription_available = if usable then account.credits_balance else 0 in
    let available = subscription_available + sum_of (λ l. l.remaining) lots in
    (if ltb available amount
        then raise (refusal account usable available lots pack_window_expired)
        else (do
          consume key account usable lots subscription_available amount
          pure (record {
            outcome = charged;
            balance = available - amount;
            requested = amount;
            restored = 0;
          })))
      db

abbrev pub claim_key : Account → ℕ → ℕ → Db → Db
claim_key account amount key db = record db {
  debits =
      db.debits
      ++ record {
        key = key;
        account_id = account.id;
        amount = amount;
        grant_epoch = account.grant_epoch;
        kind = usage;
        restored = 0;
        created_at = db.started;
        refunded = false;
      }
        ∷ [];
}

-- `charge`, after `normalizeAmount`
unfoldable pub charge : ℕ → ℕ → ℕ → Tx CreditResult
charge account_id amount key db =
    (do
      raise_if (amount == 0) amount_not_positive
      raise_if (ltb max_credit_atoms amount) amount_out_of_range
      account ← or_raise (find (λ a. a.id == account_id) db.accounts) account_not_found
      pack_window_expired ← expire_account_pack_lots account.id db.clock
      current ← get_db
      let lots = spendable_lots account.id db.clock current
      if exists (λ d. d.key == key) current.debits
          then replay_charge account lots amount key
          else (modify (claim_key account amount key)
              >> charge_claimed account lots pack_window_expired amount key))
      db
