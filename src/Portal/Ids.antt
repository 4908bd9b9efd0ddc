-- ===== src/Portal/Ids.antt =====
-- `portalConfigurationIdIsUsable` of typescript/src/portal-policy.ts: whether a text is the id of a Portal
-- configuration, and no placeholder.
use Prim.Native.Char.{code}
use Prim.Native.String.{[] as empty, ◌∷◌ as ◌<∷◌}
use stripe_entitlements_fast.Base.{
  ℕ, ◌+◌, String, List, [], ◌∷◌, Bool, true, false, not, Option, none, some, ◌&&◌, ◌||◌, ◌==◌, leb,
  if◌then◌else◌, exists,
}

abbrev pub is_between : ℕ → ℕ → ℕ → Bool
is_between low high n = leb low n && leb n high

-- `[A-Za-z0-9]`
abbrev pub is_alphanumeric : ℕ → Bool
is_alphanumeric n = is_between b'A' b'Z' n || is_between b'a' b'z' n || is_between b'0' b'9' n

abbrev pub all_alphanumeric : String → Bool
all_alphanumeric empty = true
all_alphanumeric (c <∷ s) = is_alphanumeric (code c) && all_alphanumeric s

abbrev pub is_some_alphanumeric : String → Bool
is_some_alphanumeric empty = false
is_some_alphanumeric (c <∷ s) = all_alphanumeric (c <∷ s)

-- `PORTAL_CONFIGURATION_ID`
unfoldable pub is_configuration_id : String → Bool
is_configuration_id (b <∷ (p <∷ (c <∷ (u <∷ rest)))) =
    (code b == b'b')
    && (code p == b'p')
    && (code c == b'c')
    && (code u == b'_')
    && is_some_alphanumeric rest
is_configuration_id _ = false

-- `toLowerCase().replaceAll(" ", "_")` of a character of ASCII
abbrev pub normalized : ℕ → ℕ
normalized n = if is_between b'A' b'Z' n then n + 32 else if n == b' ' then b'_' else n

abbrev pub starts_with : String → String → Bool
starts_with empty s = true
starts_with (m <∷ marker) empty = false
starts_with (m <∷ marker) (c <∷ s) = (code m == normalized (code c)) && starts_with marker s

abbrev pub includes : String → String → Bool
includes marker empty = starts_with marker empty
includes marker (c <∷ s) = starts_with marker (c <∷ s) || includes marker s

-- `PORTAL_PLACEHOLDER_MARKERS`
abbrev pub placeholder_markers : List String
placeholder_markers =
    "replace_me" ∷ "replace-with" ∷ "replace_with" ∷ "changeme" ∷ "change_me" ∷ "dummy" ∷ "your_key"
    ∷ "your_secret" ∷ []

-- `portalConfigurationIdIsUsable`
unfoldable pub portal_configuration_id_is_usable : Option String → Bool
portal_configuration_id_is_usable none = false
portal_configuration_id_is_usable (some id) =
    is_configuration_id id && not (exists (λ marker. includes marker id) placeholder_markers)
