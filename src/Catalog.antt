-- ===== src/Catalog.antt =====
-- typescript/src/catalog.ts: the fields of a plan that the services read, and the lookup keys of its
-- prices. The plans of a catalog are a map by key, here the list of its values.
pub mod LookupKeys
use Prim.Native.Char.{Char, code}
use Prim.Native.String.{[] as empty, ◌∷◌ as ◌<∷◌, ◌++◌ as ◌<>◌}
use stripe_entitlements_fast.Base.{
  ℕ, String, List, [], ◌∷◌, Bool, true, false, Option, none, some, ◌==◌, not, str_eq, if◌then◌else◌,
  find,
}

-- `BillingInterval` of types.ts
pub data Interval : Type 0 where
  month year : Interval

pub record Plan : Type 0 where
  pub key : String
  pub currency : String
  pub rank : ℕ
  pub monthly_credits : ℕ
  pub month_usd : ℕ
  pub year_usd : ℕ
  pub features : List String
  pub limits : List (String × ℕ)

pub record Catalog : Type 0 where
  pub lookup_prefix : String
  pub plans : List Plan

abbrev pub plan_of : String → Catalog → Option Plan
plan_of key c = find (λ p. str_eq p.key key) c.plans

abbrev pub interval_text : Interval → String
interval_text month = "month"
interval_text year = "year"

abbrev pub interval_of : String → Option Interval
interval_of s = if str_eq s "month" then some month else if str_eq s "year" then some year else none

-- the separator of a lookup key
abbrev pub is_separator : Char → Bool
is_separator c = code c == b'_'

abbrev pub prepend : Char → List String → List String
prepend c [] = (c <∷ empty) ∷ []
prepend c (w ∷ ws) = (c <∷ w) ∷ ws

-- `split("_")`
abbrev pub split : String → List String
split empty = empty ∷ []
split (c <∷ s) = let rest = split s in if is_separator c then empty ∷ rest else prepend c rest

-- `lookupKey`; none where `require` throws
unfoldable pub lookup_key : Catalog → String → Interval → Option String
lookup_key c plan interval = elim (plan_of plan c) [
  | none ↦ none
  | some _ ↦ some (c.lookup_prefix <> ("_" <> (plan <> ("_" <> interval_text interval))))
]

abbrev pub parse_parts : Catalog → List String → Option (Plan × Interval)
parse_parts c (prefix ∷ plan ∷ interval ∷ []) =
    if not (str_eq prefix c.lookup_prefix) then none else elim (interval_of interval) [
      | none ↦ none
      | some i ↦ elim (plan_of plan c) [ none ↦ none | some p ↦ some (p, i) ]
    ]
parse_parts c _ = none

-- `parseLookupKey`
unfoldable pub parse_lookup_key : Catalog → Option String → Option (Plan × Interval)
parse_lookup_key c none = none
parse_lookup_key c (some key) = if str_eq key "" then none else parse_parts c (split key)
