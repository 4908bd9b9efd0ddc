-- ===== src/Refund/Service/Again.antt =====
-- A second refund (`refund` of typescript/src/credits.ts): the first has left its debit terminal.
use stripe_entitlements_fast.Base.{
  ℕ, ◌≡◌, refl, ap, ◌∙◌, Bool, true, false, not, some, ◌==◌, if◌then◌else◌, find, inl, inr,
  Option-cases, ==_iff,
}
use mathlib.Core.Path.{subst}
use stripe_entitlements_fast.Store.{
  Db, Account, Debit, Error, ok, Tx, raise_if, owner_mismatch, debit_not_found, ◌>>=◌, ◌>>◌,
}
use stripe_entitlements_fast.Store.Tables.Updates.{find-some}
use stripe_entitlements_fast.Charge.{CreditResult, replayed, is_usage, expire_account_pack_lots}
use stripe_entitlements_fast.Charge.Expiry.{expired_db}
use stripe_entitlements_fast.Refund.Restorations.{restore_debit-Kept}
use stripe_entitlements_fast.Refund.Service.Terminal.{refund_for-replays}
use stripe_entitlements_fast.Refund.Service.{
  total_balance, finish_refund, refund_for, restore_debit, allocations_of,
}
use stripe_entitlements_fast.Refund.Service.Settled.{IsSettled, Settles, restored-Settles}

module _ (key account_id : ℕ) where
  -- a debit that was refunded before
  replayed-IsSettled :
      (account : Account) (debit : Debit) (balance : ℕ) (db later : Db)
      → later.accounts ≡ db.accounts
      → later.debits ≡ db.debits
      → find (λ a. a.id == account_id) db.accounts ≡ some account
      → find (λ d. d.key == key) db.debits ≡ some debit
      → (debit.account_id == account.id) ≡ true
      → is_usage debit.kind ≡ true
      → debit.refunded ≡ true
      → IsSettled key account_id
          (record {
            outcome = replayed;
            balance = balance;
            requested = debit.amount;
            restored = debit.restored;
          })
          later
  replayed-IsSettled account debit balance db later ea ed there taken own u terminal = record {
    row = account;
    debit = debit;
    account = ap (find (λ a. a.id == account_id)) ea ∙ there;
    found = ap (find (λ d. d.key == key)) ed ∙ taken;
    owner = own;
    charge = u;
    terminal = terminal;
    amount = refl;
    restored = refl;
  }

  guard-Settles :
      (b : Bool) (e : Error) (m : Tx CreditResult) (db : Db)
      → (b ≡ true → Settles key account_id (m db))
      → Settles key account_id ((raise_if (not b) e >> m) db)
  guard-Settles true e m db h = h refl
  guard-Settles false e m db h = tt

  branch-Settles :
      (b : Bool) (m n : Tx CreditResult) (db : Db)
      → (b ≡ true → Settles key account_id (m db))
      → (b ≡ false → Settles key account_id (n db))
      → Settles key account_id ((if b then m else n) db)
  branch-Settles true m n db h k = h refl
  branch-Settles false m n db h k = k refl

  -- the row and the debit are found
  found-Settles :
      (fuel : ℕ) (db : Db) (account : Account) (debit : Debit)
      → find (λ a. a.id == account_id) db.accounts ≡ some account
      → find (λ d. d.key == key) db.debits ≡ some debit
      → (debit.account_id == account.id) ≡ true
      → is_usage debit.kind ≡ true
      → Settles key account_id (
          (restore_debit fuel account debit (allocations_of key (expired_db account.id db))
              >>= (λ n. finish_refund account debit n))
            (expired_db account.id db))
  found-Settles fuel db account debit there taken own u =
      let id =
        (==_iff account.id account_id).0
          (find-some (λ a. a.id == account_id) db.accounts account there) in
      let k = (==_iff debit.key key).0 (find-some (λ d. d.key == key) db.debits debit taken) in
      restored-Settles key account_id account debit id k own u _ (
        (restore_debit-Kept key debit.account_id debit.amount debit.kind fuel account debit
            (allocations_of key (expired_db account.id db))).after
          (expired_db account.id db)
          (record { debit = debit; found = taken; owner = refl; sum = refl; sort = refl }))

  -- Whatever the database, a refund that succeeds leaves its debit terminal.
  pub refund_for-Settles :
      (fuel : ℕ) (db : Db) → Settles key account_id (refund_for fuel key account_id db)
  unfolding refund_for expire_account_pack_lots
  refund_for-Settles fuel db = elim (Option-cases (find (λ a. a.id == account_id) db.accounts)) [
    | inl missing ↦ rw (missing, ◌>>=◌) tt
    | inr (account, there) ↦
        rw (there, ◌>>=◌)
          (elim (Option-cases (find (λ d. d.key == key) db.debits)) [
            | inl missing ↦ rw (missing, ◌>>=◌) tt
            | inr (debit, taken) ↦
                rw (taken, ◌>>=◌)
                  (guard-Settles (debit.account_id == account.id) owner_mismatch _ _ (λ own.
                    guard-Settles (is_usage debit.kind) debit_not_found _ _ (λ u.
                      branch-Settles debit.refunded _ _ _
                        (λ terminal.
                          replayed-IsSettled account debit _ db (expired_db account.id db) refl refl
                            there taken own u terminal)
                        (λ pending. found-Settles fuel db account debit there taken own u))))
          ])
  ]

  -- A refund that succeeds is terminal: sent again, whatever the depth of the call stack, it is
  -- answered by a replay that names the same charge and the same restored amount, and changes nothing
  -- but what has expired.
  pub refund_twice :
      (fuel again : ℕ) (db later : Db) (r : CreditResult)
      → refund_for fuel key account_id db ≡ ok (r, later)
      → (row : Account) × (find (λ a. a.id == account_id) later.accounts ≡ some row)
        × (refund_for again key account_id later
            ≡ ok (
              record {
                outcome = replayed;
                balance = total_balance row (expired_db row.id later);
                requested = r.requested;
                restored = r.restored;
              },
              expired_db row.id later,
            ))
  refund_twice fuel again db later r e =
      let s : IsSettled key account_id r later =
        subst (Settles key account_id) e (refund_for-Settles fuel db) in
      (
        s.row,
        s.account,
        refund_for-replays key account_id later s.row s.debit again s.account s.found s.terminal
            ∙ rw (s.owner, s.charge, s.amount, s.restored) refl,
      )
