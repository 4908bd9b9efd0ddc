-- ===== src/Entitlements/Requirements.antt =====
-- `validateRequirements` of typescript/src/entitlements.ts: the features and the limits of a question.
use Prim.Native.Char.{code}
use Prim.Native.String.{[] as empty, ◌∷◌ as ◌<∷◌}
use stripe_entitlements_fast.Base.{
  ℕ, ◌-◌, ℤ, pos, negsuc, String, List, [], ◌∷◌, Bool, true, false, not, Option, none, some, ◌&&◌,
  ◌||◌, ◌==◌, str_eq, ltb, leb, if◌then◌else◌, length, exists,
}
use stripe_entitlements_fast.Store.{invalid_features, invalid_limits, Result, ok, err}

abbrev pub is_lower : ℕ → Bool
is_lower c = leb b'a' c && leb c b'z'

abbrev pub is_key_character : ℕ → Bool
is_key_character c = is_lower c || (leb b'0' c && leb c b'9') || c == b'_'

-- at most so many characters of a key
abbrev pub is_key_tail : ℕ → String → Bool
is_key_tail n empty = true
is_key_tail n (c <∷ s) =
    let rest = is_key_tail (n - 1) s in ltb 0 n && is_key_character (code c) && rest

-- `ENTITLEMENT_KEY`
abbrev pub is_entitlement_key : String → Bool
is_entitlement_key empty = false
is_entitlement_key (c <∷ s) = is_lower (code c) && is_key_tail 63 s

-- the size of the list differs from that of its set
abbrev pub has_duplicate : List String → Bool
has_duplicate [] = false
has_duplicate (x ∷ xs) = exists (λ y. str_eq y x) xs || has_duplicate xs

abbrev pub max_safe_integer : ℕ
max_safe_integer = 9007199254740991

-- the quantity of a limit: a number that is a safe integer, or none for one that is not
abbrev pub quantity : Option ℤ → Option ℕ
quantity none = none
quantity (some (negsuc n)) = none
quantity (some (pos n)) = if leb n max_safe_integer then some n else none

abbrev pub quantities : List (String × Option ℤ) → Option (List (String × ℕ))
quantities [] = some []
quantities ((key, value) ∷ rest) =
    let later = quantities rest in
    if not (is_entitlement_key key) then none else elim (quantity value) [
      | none ↦ none
      | some n ↦ elim later [ none ↦ none | some ns ↦ some ((key, n) ∷ ns) ]
    ]

-- `validateRequirements`; the keys of the limits, a record, are different
unfoldable pub validate_requirements :
    List String → List (String × Option ℤ) → Result (List String × List (String × ℕ))
validate_requirements features limits =
    if ltb 64 (length features)
      || has_duplicate features
      || exists (λ f. not (is_entitlement_key f)) features
    then err invalid_features
    else if ltb 64 (length limits)
    then err invalid_limits
    else elim (quantities limits) [ none ↦ err invalid_limits | some ns ↦ ok (features, ns) ]
