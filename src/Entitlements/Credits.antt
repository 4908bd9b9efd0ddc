-- ===== src/Entitlements/Credits.antt =====
-- The balance that `EntitlementService.check` reports can be charged (typescript/src/entitlements.ts and
-- credits.ts).
use stripe_entitlements_fast.Base.{
  ℕ, String, ◌≤◌, ◌≡◌, refl, sym, ◌∙◌, List, [], ◌∷◌, Bool, ◌↔◌, leb→le, false, some, ◌&&◌, ◌==◌,
  arith, ltb, leb, if◌then◌else◌, find, exists, sum_of, inl, inr, Bool-cases,
}
use stripe_entitlements_fast.Store.{Db, Account, Lot, Error, Tx, ok, err}
use stripe_entitlements_fast.Catalog.{Catalog}
use stripe_entitlements_fast.Amount.Range.{credit_atoms-InRange}
use stripe_entitlements_fast.Amount.{text, credit_atoms, max_credit_atoms}
use stripe_entitlements_fast.Spendable.{subscription_atoms}
use stripe_entitlements_fast.Funding.{is_spendable_lot, pack_balance_atoms}
use stripe_entitlements_fast.Store.Tables.Sorting.{sum_of-select}
use stripe_entitlements_fast.Charge.{charge, CreditResult}
use stripe_entitlements_fast.Charge.Expiry.{
  HasUniqueLots, balance_of, credits_of, pack_balance-worth,
}
use stripe_entitlements_fast.Charge.Conservation.{charge-Charges, charge-refused}
use stripe_entitlements_fast.Entitlements.{
  is_funding_lot, pack_balance, account_check, is_owner, rescue, charge_error, charge_owner,
}

-- the condition `remaining_credits > 0` of the query leaves out lots that add nothing
nonempty-sum :
    (p : Lot → Bool) (rows : List Lot)
    → sum_of (λ l. if p l && ltb 0 l.remaining then l.remaining else 0) rows
      ≡ sum_of (λ l. if p l then l.remaining else 0) rows
nonempty-sum p [] = refl
nonempty-sum p (l ∷ ls) = ground (arith, nonempty-sum p ls)

-- the query of `check` and `packBalanceAtoms` agree
pub pack_balance-pack_balance_atoms :
    (account : ℕ) (db : Db) → pack_balance account db ≡ pack_balance_atoms account db.clock db
unfolding pack_balance
pack_balance-pack_balance_atoms account db =
    sum_of-select (λ l. l.remaining) (is_funding_lot account db.clock) db.lots
    ∙ nonempty-sum (is_spendable_lot account db.clock) db.lots
    ∙ sym (pack_balance-worth account db.clock db)

subscription_atoms-balance_of :
    (a : Account) (db : Db)
    → a.credits_balance ≤ max_credit_atoms
    → subscription_atoms a db.clock ≡ balance_of a db
unfolding subscription_atoms
subscription_atoms-balance_of a db le = ground (arith, le)

-- what `check` reports is what a charge can spend
reported-credits_of :
    (catalog : Catalog) (db : Db) (fs : List String) (ls : List (String × ℕ)) (a : Account)
    → a.credits_balance ≤ max_credit_atoms
    → (account_check catalog db fs ls a).credit_balance ≡ credits_of a db
unfolding account_check
reported-credits_of catalog db fs ls a le =
    omega (arith, subscription_atoms-balance_of a db le, pack_balance-pack_balance_atoms a.id db)

charge_owner-charge :
    (owner : ℕ) (t : List ℕ) (key n : ℕ) (db : Db) (a : Account)
    → credit_atoms false (text t) ≡ ok n
    → find (is_owner owner) db.accounts ≡ some a
    → charge_owner owner t key db ≡ rescue charge_error (charge a.id n key) db
unfolding charge_owner
charge_owner-charge owner t key n db a parsed found = rw (charge_owner, parsed, found) refl

rescue-err :
    {A : Type 0} (f : Error → Error) (m : Tx A) (db : Db) (e : Error)
    → m db ≡ err e
    → rescue f m db ≡ err (f e)
rescue-err f m db e h = rw (rescue, h) refl

rescue-ok :
    {A : Type 0} (f : Error → Error) (m : Tx A) (db later : Db) (r : A)
    → m db ≡ ok (r, later)
    → rescue f m db ≡ ok (r, later)
rescue-ok f m db later r h = rw (rescue, h) refl

ok-ne-err : {A : Type 0} (a : A) (e : Error) → ok a ≡ err e → ⊥
ok-ne-err a e h = cc

module _ (catalog : Catalog) (owner key n : ℕ) (t : List ℕ) (db : Db) (a : Account)
    (fs : List String) (ls : List (String × ℕ)) where
  -- a charge of the owner that is answered
  abbrev pub Answered : Type 0
  Answered = (r : CreditResult) × (later : Db) × (charge_owner owner t key db ≡ ok (r, later))

  -- Where the account has an id of its own and a balance in the range of a bigint, ids of lots are
  -- unique, the text is read as an amount and the key is new, a charge of the owner succeeds exactly
  -- when the balance that `check` reports at that time covers the amount.
  pub charge_owner-check :
      HasUniqueLots db
      → find (λ r. r.id == a.id) db.accounts ≡ some a
      → find (is_owner owner) db.accounts ≡ some a
      → a.credits_balance ≤ max_credit_atoms
      → exists (λ d. d.key == key) db.debits ≡ false
      → credit_atoms false (text t) ≡ ok n
      → Answered ↔ (n ≤ (account_check catalog db fs ls a).credit_balance)
  charge_owner-check u own found le new parsed =
      let range = credit_atoms-InRange false (text t) n parsed in
      let reported = reported-credits_of catalog db fs ls a le in
      let call = charge_owner-charge owner t key n db a parsed found in
      (
        λ x. elim (Bool-cases (leb n (credits_of a db))) [
          | inl covered ↦ omega (arith, reported, leb→le _ _ covered)
          | inr short ↦
              let refused =
                charge-refused a.id n key db a own new range.0 (ground (arith, short)) in
              absurd (
                ok-ne-err _ _
                  (sym x.2 ∙ call ∙ rescue-err charge_error (charge a.id n key) db _ refused))
        ],
        λ cover.
            let s =
              charge-Charges a.id n key db a u own new (range.1 refl) range.0
                (omega (arith, reported)) in
            (_, s.0, call ∙ rescue-ok charge_error (charge a.id n key) db s.0 _ s.1),
      )
