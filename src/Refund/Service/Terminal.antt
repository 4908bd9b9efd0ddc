-- ===== src/Refund/Service/Terminal.antt =====
-- A debit that was refunded before (`refund` of typescript/src/credits.ts).
use stripe_entitlements_fast.Base.{
  ℕ, ◌≡◌, refl, Bool, true, false, not, some, ◌==◌, if◌then◌else◌, find,
}
use stripe_entitlements_fast.Store.{
  Db, Account, Debit, Tx, Error, ok, err, raise_if, owner_mismatch, debit_not_found, ◌>>=◌, ◌>>◌,
}
use stripe_entitlements_fast.Charge.{replayed, is_usage, expire_account_pack_lots}
use stripe_entitlements_fast.Charge.Expiry.{expired_db}
use stripe_entitlements_fast.Refund.Service.{total_balance, refund_for}

-- two guards before an early return
guarded_return :
    {A : Type 0} (x y s : Bool) (e f : Error) (m n : Tx A) (db : Db)
    → s ≡ true
    → (raise_if (not x) e >> (raise_if (not y) f >> (if s then m else n))) db
      ≡ (if x then (if y then m db else err f) else err e)
guarded_return false y s e f m n db h = refl
guarded_return true false s e f m n db h = refl
guarded_return true true s e f m n db h = rw h refl

module _ (key account_id : ℕ) (db : Db) (row : Account) (d : Debit) where
  -- A debit whose refund is terminal is answered from its row, whatever the depth of the call stack: to
  -- its owner, where it is a charge, by a replay that names what was restored and changes nothing but
  -- what has expired; to another account, or where it is a collection of debts, by an error.
  pub refund_for-replays :
      (fuel : ℕ)
      → find (λ a. a.id == account_id) db.accounts ≡ some row
      → find (λ e. e.key == key) db.debits ≡ some d
      → d.refunded ≡ true
      → refund_for fuel key account_id db ≡ (
          if d.account_id == row.id
          then (if is_usage d.kind
              then ok (
                record {
                  outcome = replayed;
                  balance = total_balance row (expired_db row.id db);
                  requested = d.amount;
                  restored = d.restored;
                },
                expired_db row.id db,
              )
              else err debit_not_found)
          else err owner_mismatch)
  unfolding refund_for expire_account_pack_lots
  refund_for-replays fuel found taken settled =
      rw (found, ◌>>=◌, taken)
        (guarded_return (d.account_id == row.id) (is_usage d.kind) d.refunded owner_mismatch
          debit_not_found _ _ (expired_db row.id db) settled)
