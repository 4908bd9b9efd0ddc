-- ===== src/Catalog/LookupKeys.antt =====
-- `parseLookupKey` inverts `lookupKey` (typescript/src/catalog.ts).
use Prim.Native.String.{[] as empty, ◌∷◌ as ◌<∷◌, ◌++◌ as ◌<>◌}
use Prim.Native.String.append.{nil, cons}
use stripe_entitlements_fast.Base.{
  ℕ, String, [], ◌∷◌, true, false, some, ◌≡◌, refl, sym, ap, ◌∙◌, arith, inl, inr, Bool-cases,
  length, str_eq, eq_iff,
}
use stripe_entitlements_fast.Catalog.{
  Interval, month, year, Plan, Catalog, plan_of, interval_text, interval_of, is_separator, split,
  lookup_key, parse_parts, parse_lookup_key,
}

-- a text without '_'
abbrev pub IsWord : String → Type 0
IsWord empty = Unit
IsWord (c <∷ s) = (is_separator c ≡ false) × IsWord s

split-word : (w : String) → IsWord w → split w ≡ w ∷ []
split-word empty h = refl
split-word (c <∷ s) h = rw (h.0, split-word s h.1) refl

split-join : (w rest : String) → IsWord w → split (w <> ("_" <> rest)) ≡ w ∷ split rest
split-join empty rest h = rw (nil ("_" <> rest), cons "_" "" rest, nil rest) refl
split-join (c <∷ s) rest h = rw (cons c s ("_" <> rest), h.0, split-join s rest h.1) refl

interval-IsWord : (i : Interval) → IsWord (interval_text i)
interval-IsWord month = (refl, (refl, (refl, (refl, (refl, tt)))))
interval-IsWord year = (refl, (refl, (refl, (refl, tt))))

interval_of-interval_text : (i : Interval) → interval_of (interval_text i) ≡ some i
interval_of-interval_text month = refl
interval_of-interval_text year = refl

str_refl : (s : String) → str_eq s s ≡ true
str_refl s = (eq_iff s s).1 refl

not_empty : (k a b d : String) → split k ≡ a ∷ b ∷ d ∷ [] → str_eq k "" ≡ false
not_empty k a b d e = elim (Bool-cases (str_eq k "")) [
  | inl empty_key ↦
      let same : k ≡ "" = (eq_iff k "").0 empty_key in
      absurd (one_of_three (ap length (ap split (sym same) ∙ e)))
  | inr other ↦ other
]
  where
    one_of_three : ◌≡◌ {A = ℕ} 1 3 → ⊥
    one_of_three e = omega arith

module _ (c : Catalog) (key : String) (p : Plan) (i : Interval) where
  split-lookup_key :
      IsWord c.lookup_prefix
      → IsWord key
      → split (c.lookup_prefix <> ("_" <> (key <> ("_" <> interval_text i))))
        ≡ c.lookup_prefix ∷ key ∷ interval_text i ∷ []
  split-lookup_key pre w =
      split-join c.lookup_prefix (key <> ("_" <> interval_text i)) pre
      ∙ ap (λ ws. c.lookup_prefix ∷ ws)
          (split-join key (interval_text i) w
            ∙ ap (λ ws. key ∷ ws) (split-word (interval_text i) (interval-IsWord i)))

  parse_parts-lem :
      plan_of key c ≡ some p
      → parse_parts c (c.lookup_prefix ∷ key ∷ interval_text i ∷ []) ≡ some (p, i)
  parse_parts-lem found = rw (str_refl c.lookup_prefix, interval_of-interval_text i, found) refl

  -- Where the prefix and the key of a plan of the catalog hold no '_', the lookup key of the plan and an
  -- interval is parsed as that plan and that interval.
  pub parse_lookup_key-lookup_key :
      IsWord c.lookup_prefix
      → IsWord key
      → plan_of key c ≡ some p
      → (k : String) × (lookup_key c key i ≡ some k) × (parse_lookup_key c (some k) ≡ some (p, i))
  unfolding lookup_key parse_lookup_key
  parse_lookup_key-lookup_key pre w found =
      let k = c.lookup_prefix <> ("_" <> (key <> ("_" <> interval_text i))) in
      let parts = split-lookup_key pre w in
      (
        k,
        rw (lookup_key, found) refl,
        rw (not_empty k c.lookup_prefix key (interval_text i) parts, parts) (parse_parts-lem found),
      )
