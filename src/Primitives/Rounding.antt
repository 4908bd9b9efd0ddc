-- ===== src/Primitives/Rounding.antt =====
-- The rounding of `ceilRatio` (typescript/src/processor-primitives.ts).
use Prim.Native.Nat.{min}
use stripe_entitlements_fast.Base.{
  ℕ, suc, pos, ◌+◌, ◌-◌, ◌*◌, ◌/◌, ◌≤◌, ◌<◌, ◌≡◌, ◌⊎◌, inl, inr, arith, leb, leb→le, Bool-cases,
}
use mathlib.Core.Path.{subst}
use native.Mathlib.Nat.{div-lt_iff_lt-mul, lt-div-mul-add, le_of_mul-le-mul_right}
use stripe_entitlements_fast.Primitives.{ceil_ratio}

-- c is the least number of units that covers the ratio.
pub record IsCeiling (units numerator denominator c : ℕ) : Type 0 where
  pub covers : units * numerator ≤ c * denominator
  pub least : (c' : ℕ) → units * numerator ≤ c' * denominator → c ≤ c'

quotient-IsCeiling : (u n d : ℕ) → 0 < d → IsCeiling u n d ((u * n + d - 1) / d)
quotient-IsCeiling u n d p = record {
  covers = omega (arith, lt-div-mul-add {a = u * n + d - 1} p);
  least =
      λ c h. omega (arith, ((div-lt_iff_lt-mul {x = u * n + d - 1} {y = suc c} p).1 (omega arith)));
}

whole-IsCeiling : (u d : ℕ) → 0 < d → IsCeiling u d d u
whole-IsCeiling u d p = record { covers = omega arith; least = λ c h. le_of_mul-le-mul_right h p }

nat_cases : (n : ℕ) → (n ≡ 0) ⊎ (0 < n)
nat_cases n = ground arith

nothing-IsCeiling : (u n d : ℕ) → (u ≡ 0) ⊎ (n ≡ 0) → IsCeiling u n d 0
nothing-IsCeiling u n d (inl e) = record { covers = rw e (omega arith); least = λ c h. omega arith }
nothing-IsCeiling u n d (inr e) = record { covers = rw e (omega arith); least = λ c h. omega arith }

-- the three ends of the code
module _ (u n d : ℕ) where
  ceil_ratio-none : (u ≡ 0) ⊎ (n ≡ 0) → ceil_ratio (pos u) (pos n) (pos d) ≡ pos 0
  unfolding ceil_ratio
  ceil_ratio-none e = ground arith

  pub ceil_ratio-whole : 0 < n → 0 < d → d ≤ n → ceil_ratio (pos u) (pos n) (pos d) ≡ pos u
  unfolding ceil_ratio
  ceil_ratio-whole p q le = ground arith

  pub ceil_ratio-part :
      0 < u → 0 < n → n < d → ceil_ratio (pos u) (pos n) (pos d) ≡ pos ((u * n + d - 1) / d)
  unfolding ceil_ratio
  ceil_ratio-part p q lt = ground arith

-- For units and a numerator that are not negative and a positive denominator, `ceilRatio` is the
-- least number of units that covers the ratio, where a ratio above one counts as one.
pub ceil_ratio-IsCeiling :
    (u n d : ℕ)
    → 0 < d
    → (c : ℕ) × (ceil_ratio (pos u) (pos n) (pos d) ≡ pos c) × IsCeiling u (min n d) d c
ceil_ratio-IsCeiling u n d p = elim (nat_cases u) [
  | inl z ↦ (0, ceil_ratio-none u n d (inl z), nothing-IsCeiling u (min n d) d (inl z))
  | inr pu ↦ elim (nat_cases n) [
    | inl z ↦
        (0, ceil_ratio-none u n d (inr z), nothing-IsCeiling u (min n d) d (inr (omega arith)))
    | inr pn ↦ elim (Bool-cases (leb d n)) [
      | inl le ↦ (
        u,
        ceil_ratio-whole u n d pn p (leb→le d n le),
        subst (λ m. IsCeiling u m d u) (omega (arith, leb→le d n le)) (whole-IsCeiling u d p),
      )
      | inr gt ↦
          let lt : n < d = ground arith in
          (
            (u * n + d - 1) / d,
            ceil_ratio-part u n d pu pn lt,
            subst (λ m. IsCeiling u m d ((u * n + d - 1) / d)) (omega arith)
                (quotient-IsCeiling u n d p),
          )
    ]
  ]
]
