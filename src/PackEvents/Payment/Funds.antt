-- ===== src/PackEvents/Payment/Funds.antt =====
-- What the first payment of an order funds (typescript/src/credit-pack-events.ts).
use Prim.Native.Nat.{min}
use stripe_entitlements_fast.Base.{
  ℕ, ◌+◌, ◌-◌, ◌≤◌, ◌≡◌, refl, ◌∙◌, [], ◌∷◌, ◌++◌, Bool, true, false, not, some, ◌&&◌, ◌||◌, ◌==◌,
  inl, inr, arith, ltb, leb, if◌then◌else◌, find, exists, Bool-cases, ==_refl, ==_iff,
}
use stripe_entitlements_fast.Store.{Db, Account, Order, Lot, ok, ◌>>=◌}
use stripe_entitlements_fast.Store.Tables.{count}
use stripe_entitlements_fast.Store.Tables.Pending.{IsUnique}
use stripe_entitlements_fast.Store.Tables.Appending.{
  find-append, count_of_exists, count-append, exists-or_former,
}
use stripe_entitlements_fast.Funding.{collect_pack_debts_from_lot}
use stripe_entitlements_fast.Funding.Lots.{has_id, lot_id}
use stripe_entitlements_fast.Funding.Rounds.{of_order, order_of, IsFresh, owed}
use stripe_entitlements_fast.Funding.FromLot.{collect_pack_debts_from_lot-CollectsFromLot}
use stripe_entitlements_fast.PackEvents.{handled, funding_granted, ProcessResult}
use stripe_entitlements_fast.PackEvents.Payment.{
  is_disputed, paid_status, is_terminal, is_past, expiry, funded_lot, insert_lot, fund,
}

-- the test of the collection of debts
abbrev pays_debts : Order → ℕ → ℕ → Bool
pays_debts o created clock =
    not (is_terminal o)
    && not (is_past o created clock)
    && ltb 0 (o.pack_credits - o.refunded_credits)

module _ (lot : ℕ) (o : Order) (a : Account) (created clock : ℕ) where
  abbrev new_lot : Lot
  new_lot = funded_lot lot o a created clock

  new_lot-identity :
      (new_lot.id ≡ lot)
      × (new_lot.order_id ≡ o.id)
      × (new_lot.account_id ≡ a.id)
      × (new_lot.clawed_back ≡ o.refunded_credits)
  unfolding funded_lot
  new_lot-identity = (refl, refl, refl, refl)

  new_lot-remaining :
      new_lot.remaining
      ≡ (if pays_debts o created clock then o.pack_credits - o.refunded_credits else 0)
  unfolding funded_lot
  new_lot-remaining = elim (Bool-cases (is_terminal o)) [
    | inl terminal ↦ rw terminal refl
    | inr open_order ↦ rw open_order (elim (Bool-cases (leb (expiry o created) clock)) [
      | inl past ↦ rw past refl
      | inr current ↦ rw current (ground arith)
    ])
  ]

  -- but for a disputed order, the parts of the lot make up the pack
  new_lot-whole :
      o.refunded_credits ≤ o.pack_credits
      → is_disputed (paid_status o.payment_status) ≡ false
      → new_lot.remaining + new_lot.expired + new_lot.clawed_back ≡ o.pack_credits
  unfolding funded_lot
  new_lot-whole le settled = elim (Bool-cases (is_terminal o)) [
    | inl terminal ↦
        let spent : o.refunded_credits ≡ o.pack_credits = ground (arith, settled, terminal) in
        rw terminal (omega arith)
    | inr open_order ↦ rw open_order (elim (Bool-cases (leb (expiry o created) clock)) [
      | inl past ↦ rw past (omega arith)
      | inr current ↦ rw current (omega arith)
    ])
  ]

module _ (lot : ℕ) (o : Order) (a : Account) (created : ℕ) where
  -- The lot that a payment made, and the debts that it paid.
  pub record Funds (db : Db) (r : ProcessResult) (later : Db) : Type 0 where
    pub made : Lot
    pub collected : ℕ
    pub handled_by : r.outcome ≡ handled
    pub found : find (has_id lot) later.lots ≡ some made
    pub of_the_order : made.order_id ≡ o.id
    pub amount :
        collected
        ≡ min
            (if pays_debts o created db.clock then o.pack_credits - o.refunded_credits else 0)
            (owed a.id db)
    pub debts : owed a.id later + collected ≡ owed a.id db
    pub whole :
        o.refunded_credits ≤ o.pack_credits
        → is_disputed (paid_status o.payment_status) ≡ false
        → made.remaining + made.expired + made.clawed_back + collected ≡ o.pack_credits
    pub accounts : later.accounts ≡ db.accounts

  -- no lot has the id or the order of the new one
  abbrev pub IsNew : Db → Type 0
  IsNew db = exists (λ r. r.id == lot || r.order_id == o.id) db.lots ≡ false

  module _ (db : Db) (fresh : IsNew db) where
    abbrev l : Lot
    l = new_lot lot o a created db.clock

    abbrev mid : Db
    mid = record db { lots = db.lots ++ l ∷ [] }

    insert_lot-mid : insert_lot l db ≡ ok (tt, mid)
    unfolding insert_lot funded_lot
    insert_lot-mid = rw fresh refl

    no_lot : exists (has_id lot) db.lots ≡ false
    no_lot = exists-or_former (has_id lot) (λ r. r.order_id == o.id) db.lots fresh

    mid-found : find (has_id lot) mid.lots ≡ some l
    unfolding funded_lot
    mid-found = find-append (has_id lot) db.lots l no_lot (==_refl lot)

    mid-IsUnique : IsUnique has_id lot_id db.lots → IsUnique has_id lot_id mid.lots
    unfolding funded_lot
    mid-IsUnique u k = elim (Bool-cases (lot == k)) [
      | inl same ↦
          let e : lot ≡ k = (==_iff lot k).0 same in
          let none_yet : count (has_id k) db.lots ≡ 0 =
            rw (← e) (count_of_exists (has_id lot) db.lots no_lot) in
          rw (count-append (has_id k) db.lots l, same) (omega arith)
      | inr other ↦ rw (count-append (has_id k) db.lots l, other) (omega (arith, u k))
    ]

    mid-IsFresh : IsFresh db → IsFresh mid
    mid-IsFresh f = record { unused = f.unused; apart = f.apart }

    fund-open :
        (collected : ℕ) (later : Db)
        → pays_debts o created db.clock ≡ true
        → collect_pack_debts_from_lot a.id lot (o.pack_credits - o.refunded_credits) mid
          ≡ ok (collected, later)
        → fund lot o a created db
          ≡ ok (
            record { outcome = handled; reason = funding_granted; account_id = some a.id },
            later,
          )
    unfolding fund
    fund-open collected later p e = rw (◌>>=◌, insert_lot-mid, p, e) refl

    fund-shut :
        pays_debts o created db.clock ≡ false
        → fund lot o a created db
          ≡ ok (record { outcome = handled; reason = funding_granted; account_id = some a.id }, mid)
    unfolding fund
    fund-shut p = rw (◌>>=◌, insert_lot-mid, p) refl

    open_lot-remaining :
        pays_debts o created db.clock ≡ true → l.remaining ≡ o.pack_credits - o.refunded_credits
    open_lot-remaining p = new_lot-remaining lot o a created db.clock ∙ rw p refl

    funded-whole :
        (collected : ℕ)
        → collected ≤ l.remaining
        → o.refunded_credits ≤ o.pack_credits
        → is_disputed (paid_status o.payment_status) ≡ false
        → l.remaining - collected + l.expired + l.clawed_back + collected ≡ o.pack_credits
    funded-whole collected le part settled =
        omega (arith, new_lot-whole lot o a created db.clock part settled)

    fund-open_Funds :
        (row : Account)
        → IsFresh db
        → IsUnique of_order order_of db.pack_debts
        → IsUnique has_id lot_id db.lots
        → find (λ r. r.id == a.id) db.accounts ≡ some row
        → pays_debts o created db.clock ≡ true
        → (r : ProcessResult) × (later : Db) × (fund lot o a created db ≡ ok (r, later))
          × Funds db r later
    unfolding funded_lot
    fund-open_Funds row f ud ul there p =
        let remaining = open_lot-remaining p in
        let c =
          collect_pack_debts_from_lot-CollectsFromLot a.id l (o.pack_credits - o.refunded_credits)
            mid row (mid-IsFresh f) ud (mid-IsUnique ul) there mid-found
            (omega (arith, remaining)) in
        let s = c.3 in
        (
          record { outcome = handled; reason = funding_granted; account_id = some a.id },
          c.1,
          fund-open c.0 c.1 p c.2,
          record {
            made = record l { remaining = l.remaining - c.0 };
            collected = c.0;
            handled_by = refl;
            found = s.funded;
            of_the_order = refl;
            amount = rw p s.amount;
            debts = s.debts;
            whole =
                λ part settled. funded-whole c.0 (omega (arith, s.amount, remaining)) part settled;
            accounts = s.accounts;
          },
        )

    fund-shut_Funds :
        pays_debts o created db.clock ≡ false
        → (r : ProcessResult) × (later : Db) × (fund lot o a created db ≡ ok (r, later))
          × Funds db r later
    unfolding funded_lot
    fund-shut_Funds p = (
      record { outcome = handled; reason = funding_granted; account_id = some a.id },
      mid,
      fund-shut p,
      record {
        made = l;
        collected = 0;
        handled_by = refl;
        found = mid-found;
        of_the_order = refl;
        amount = rw p (omega arith);
        debts = omega arith;
        whole = λ part settled. omega (arith, new_lot-whole lot o a created db.clock part settled);
        accounts = refl;
      },
    )

    -- Where the lot and its order are new, ids are unique, the keys to be drawn are new and the account
    -- exists, the funding never fails: it makes one lot for the order, which pays the smaller of its
    -- credits and of the pack debts of the account, and but for a disputed order the lot's parts and
    -- what it paid make up the pack.
    pub fund-Funds :
        (row : Account)
        → IsFresh db
        → IsUnique of_order order_of db.pack_debts
        → IsUnique has_id lot_id db.lots
        → find (λ r. r.id == a.id) db.accounts ≡ some row
        → (r : ProcessResult) × (later : Db) × (fund lot o a created db ≡ ok (r, later))
          × Funds db r later
    fund-Funds row f ud ul there = elim (Bool-cases (pays_debts o created db.clock)) [
      | inl p ↦ fund-open_Funds row f ud ul there p
      | inr p ↦ fund-shut_Funds p
    ]
