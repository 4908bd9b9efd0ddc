-- ===== src/Refund/Load/Release.antt =====
-- The release of a debt's atoms (typescript/src/credits.ts), by the bound on the depth of a refund.
use stripe_entitlements_fast.Base.{
  ℕ, sum_of, ◌+◌, ◌-◌, ◌≤◌, ◌≡◌, refl, List, [], ◌∷◌, Bool, true, none, inl, inr, arith, ◌&&◌, ◌==◌,
  leb, find, update, Bool-cases, Option-cases,
}
use stripe_entitlements_fast.Store.{PackDebt, modify}
use stripe_entitlements_fast.Store.Runs.{Runs, modify-Runs}
use stripe_entitlements_fast.Store.Tables.{count}
use stripe_entitlements_fast.Store.Tables.Updates.{
  count-update, sum_of-update, sum_of-update_same, find-some,
}
use stripe_entitlements_fast.Store.Tables.Pending.{update-IsUnique}
use stripe_entitlements_fast.Funding.Rounds.{of_order, order_of}
use stripe_entitlements_fast.Refund.{move_to_released, set_restored, release}
use stripe_entitlements_fast.Refund.Quiet.{IsOther, modify-Quiet}
use stripe_entitlements_fast.Refund.Load.{Load, Quiet-Load}

count_of_unfound :
    {A : Type 0} (p : A → Bool) (rows : List A) → find p rows ≡ none → count p rows ≡ 0
count_of_unfound p [] h = refl
count_of_unfound p (x ∷ xs) h = ground (arith, h, count_of_unfound p xs)

-- the condition and the effect of the update
abbrev can_release : ℕ → ℕ → PackDebt → Bool
can_release order amount d = d.order_id == order && leb amount d.collected

abbrev released_part : ℕ → PackDebt → PackDebt
released_part amount d = record d {
  collected = d.collected - amount;
  released = d.released + amount;
}

released-sum :
    (order amount : ℕ) (rows : List PackDebt)
    → (count (can_release order amount) rows == 1) ≡ true
    → sum_of (λ d. d.collected) (update (can_release order amount) (released_part amount) rows)
        + amount
      ≡ sum_of (λ d. d.collected) rows
released-sum order amount rows one = elim (Option-cases (find (can_release order amount) rows)) [
  | inl missing ↦
      absurd (ground (arith, one, count_of_unfound (can_release order amount) rows missing))
  | inr (d, found) ↦ ground (
    arith,
    one,
    sum_of-update (λ e. e.collected) (can_release order amount) (released_part amount) rows d
        (ground (arith, one)) found,
    find-some (can_release order amount) rows d found,
  )
]

module _ (owner k : ℕ) where
  pub move_to_released-Runs :
      (order amount : ℕ)
      → Runs IsOther
          (Load owner k)
          (λ _ db. (amount ≤ k) × Load owner (k - amount) db)
          (move_to_released order amount)
  move_to_released-Runs order amount = record {
    ends = λ db h. elim (Bool-cases (count (can_release order amount) db.pack_debts == 1)) [
      | inl one ↦
          let sum = released-sum order amount db.pack_debts one in
          rw one (
            omega (arith, h.total, sum),
            record {
              unique = λ j. omega (
                arith,
                h.unique j,
                count-update (of_order j) (can_release order amount) (released_part amount)
                    db.pack_debts (λ r. refl),
              );
              total = omega (arith, h.total, sum);
            },
          )
      | inr changed ↦ rw changed refl
    ];
  }

  pub set_restored-Runs :
      (key restored : ℕ)
      → Runs IsOther (Load owner k) (λ _. Load owner k) (modify (set_restored key restored))
  set_restored-Runs key restored =
      Quiet-Load owner k _ (modify-Quiet (set_restored key restored) (λ db. refl) (λ db. refl))

  pub release-Runs :
      (order amount : ℕ)
      → Runs IsOther (Load owner k) (λ _. Load owner k) (modify (release order amount))
  release-Runs order amount = modify-Runs IsOther (release order amount) (λ db h.
      let g = λ (d : PackDebt). record d { released = d.released + amount } in
      record {
        unique = update-IsUnique of_order order_of order g (λ j r. refl) db.pack_debts h.unique;
        total = omega (
          arith,
          h.total,
          sum_of-update_same (λ d. d.collected) (of_order order) g db.pack_debts (λ r _. refl),
        );
      })
