-- ===== src/Annual/Grants/Slots.antt =====
-- The slot that the worker of typescript/src/annual.ts aims at.
use stripe_entitlements_fast.Base.{
  ℕ, zero, suc, ◌-◌, ◌≤◌, ◌≡◌, refl, ◌⊎◌, inl, inr, some, arith, leb, leb→le, smaller, Bool-cases,
}
use stripe_entitlements_fast.Store.{Account}
use stripe_entitlements_fast.Annual.Grants.{last_begun, target_slot}

module _ (add_months : ℕ → ℕ → ℕ) where
  -- more months never end earlier
  abbrev pub IsMonotone : Type 0
  IsMonotone = (a j k : ℕ) → j ≤ k → add_months a j ≤ add_months a k

  last_begun_le : (anchor now k : ℕ) → last_begun add_months anchor now k ≤ k
  last_begun_le anchor now zero = omega arith
  last_begun_le anchor now (suc k) = ground (arith, last_begun_le anchor now k)

  last_begun-begins :
      (anchor now k : ℕ)
      → let s = last_begun add_months anchor now k in (s ≡ 0) ⊎ (add_months anchor s ≤ now)
  last_begun-begins anchor now zero = inl refl
  last_begun-begins anchor now (suc k) = elim (Bool-cases (leb (add_months anchor (suc k)) now)) [
    | inl begins ↦ rw begins (inr (leb→le (add_months anchor (suc k)) now begins))
    | inr waits ↦ rw waits (last_begun-begins anchor now k)
  ]

  target_slot_begun :
      (allowed now anchor : ℕ)
      → IsMonotone
      → let t = smaller (smaller (suc (last_begun add_months anchor now 12)) allowed) 12 in
        (t ≤ 1) ⊎ (add_months anchor (t - 1) ≤ now)
  target_slot_begun allowed now anchor mono =
      let s = last_begun add_months anchor now 12 in
      let t = smaller (smaller (suc s) allowed) 12 in
      let le : t - 1 ≤ s = ground arith in
      elim (last_begun-begins anchor now 12) [
        | inl none_begun ↦ inl (omega (arith, none_begun, le))
        | inr begins ↦ inr (omega (arith, begins, mono anchor (t - 1) s le))
      ]

  -- The slot that a grant aims at is at most the allowed ones and at most the twelfth, and it is the first
  -- or it has begun, where more months never end earlier.
  pub target_slot-begins :
      (a : Account) (anchor now : ℕ)
      → IsMonotone
      → a.annual_anchor ≡ some anchor
      → let t = target_slot add_months a now in
        (t ≤ a.grants_allowed) × (t ≤ 12) × ((t ≤ 1) ⊎ (add_months anchor (t - 1) ≤ now))
  unfolding target_slot
  target_slot-begins a anchor now mono e =
      (ground arith, ground arith, rw e (target_slot_begun a.grants_allowed now anchor mono))
