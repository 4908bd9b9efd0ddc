-- ===== src/Calendar/Normal.antt =====
-- `rfc3339Timestamp` of typescript/src/subscription-state.ts keeps the instant of a timestamp.
use stripe_entitlements_fast.Base.{
  ℕ, ℤ, ◌≡◌, ◌⊎◌, refl, ◌∙◌, sym, ap, List, ◌++◌, true, ◌&&◌, inl, inr, Bool-cases, former, latter,
  some, none, Option, Option-cases,
}
use stripe_entitlements_fast.Calendar.{
  is_date, is_time, is_separated, is_tail, tail_of, Match, match_timestamp, match_micros,
  normal_text, normalized_timezone, rfc3339_timestamp, micros_of, normal_of, text_unless,
  timestamp_micros, drop, offset_seconds, micros_at,
}
use stripe_entitlements_fast.Calendar.Zones.{SameZone, normalized_timezone-SameZone}
use stripe_entitlements_fast.Calendar.Fractions.{Front, front_of, is_tail-is_timezone}
use stripe_entitlements_fast.Calendar.Texts.{
  Long, long, length-Long, is_time-length, text_of, groups, match_timestamp-text_of,
  normal_text-text_of, same_date, same_time,
}

-- A text that `TIMESTAMP` matches, its groups, and its normal form, whose groups differ in the timezone alone.
record Matched (t : List ℕ) : Type 0 where
  pub found : Match
  pub matched : match_timestamp t ≡ some found
  pub again :
      match_timestamp (normal_text t found)
      ≡ some (record found { timezone = normalized_timezone found.timezone })
  pub same : SameZone found.timezone (normalized_timezone found.timezone)
  pub fixed :
      normal_text
        (normal_text t found)
        (record found { timezone = normalized_timezone found.timezone })
      ≡ normal_text t found

module _ (y3 y2 y1 y0 d1 n1 n0 d2 e1 e0 h1 h0 c1 m1 m0 c2 s1 s0 s : ℕ) (rest : List ℕ)
    (date : is_date (text_of y3 y2 y1 y0 d1 n1 n0 d2 e1 e0 h1 h0 c1 m1 m0 c2 s1 s0 s rest) ≡ true)
    (time : is_time (text_of y3 y2 y1 y0 d1 n1 n0 d2 e1 e0 h1 h0 c1 m1 m0 c2 s1 s0 s rest) ≡ true)
    (separated : is_separated (text_of y3 y2 y1 y0 d1 n1 n0 d2 e1 e0 h1 h0 c1 m1 m0 c2 s1 s0 s rest)
      ≡ true)
    (tail : is_tail rest ≡ true) where
  abbrev zone : List ℕ
  zone = (tail_of rest).1

  same_zone : SameZone zone (normalized_timezone zone)
  same_zone = normalized_timezone-SameZone zone (is_tail-is_timezone rest tail)

  front : Front rest (normalized_timezone zone)
  front = front_of rest zone (normalized_timezone zone) tail same_zone

  result : List ℕ
  result =
      text_of y3 y2 y1 y0 d1 n1 n0 d2 e1 e0 h1 h0 c1 m1 m0 c2 s1 s0 b'T'
        (front.front ++ normalized_timezone zone)

  result_groups : Match
  result_groups =
      groups y3 y2 y1 y0 d1 n1 n0 d2 e1 e0 h1 h0 c1 m1 m0 c2 s1 s0
        ((tail_of rest).0, normalized_timezone zone)

  match_timestamp-result : match_timestamp result ≡ some result_groups
  unfolding result result_groups
  match_timestamp-result =
      match_timestamp-text_of y3 y2 y1 y0 d1 n1 n0 d2 e1 e0 h1 h0 c1 m1 m0 c2 s1 s0 b'T'
        (front.front ++ normalized_timezone zone)
        (same_date y3 y2 y1 y0 d1 n1 n0 d2 e1 e0 h1 h0 c1 m1 m0 c2 s1 s0 b'T' s
            (front.front ++ normalized_timezone zone) rest
          ∙ date)
        (same_time y3 y2 y1 y0 d1 n1 n0 d2 e1 e0 h1 h0 c1 m1 m0 c2 s1 s0 b'T' s
            (front.front ++ normalized_timezone zone) rest
          ∙ time)
        refl front.matched
      ∙ ap (λ parts. some (groups y3 y2 y1 y0 d1 n1 n0 d2 e1 e0 h1 h0 c1 m1 m0 c2 s1 s0 parts))
          front.tail

  result_fixed : normal_text result result_groups ≡ result
  unfolding result result_groups
  result_fixed =
      ap
        (λ parts.
          normal_text
            (text_of y3 y2 y1 y0 d1 n1 n0 d2 e1 e0 h1 h0 c1 m1 m0 c2 s1 s0 b'T'
              (front.front ++ normalized_timezone zone))
            (groups y3 y2 y1 y0 d1 n1 n0 d2 e1 e0 h1 h0 c1 m1 m0 c2 s1 s0 parts))
        (sym front.tail)
      ∙ normal_text-text_of y3 y2 y1 y0 d1 n1 n0 d2 e1 e0 h1 h0 c1 m1 m0 c2 s1 s0 b'T'
          (front.front ++ normalized_timezone zone) front.front
          (ap (λ parts. front.front ++ parts.1) (sym front.tail))
      ∙ ap
          (λ z.
            text_of y3 y2 y1 y0 d1 n1 n0 d2 e1 e0 h1 h0 c1 m1 m0 c2 s1 s0 b'T' (front.front ++ z))
          (ap (λ parts. normalized_timezone parts.1) front.tail ∙ same_zone.kept)

  text_of-Matched : Matched (text_of y3 y2 y1 y0 d1 n1 n0 d2 e1 e0 h1 h0 c1 m1 m0 c2 s1 s0 s rest)
  unfolding result result_groups
  text_of-Matched =
      let normal : normal_text
            (text_of y3 y2 y1 y0 d1 n1 n0 d2 e1 e0 h1 h0 c1 m1 m0 c2 s1 s0 s rest)
            (groups y3 y2 y1 y0 d1 n1 n0 d2 e1 e0 h1 h0 c1 m1 m0 c2 s1 s0 (tail_of rest))
          ≡ result =
        normal_text-text_of y3 y2 y1 y0 d1 n1 n0 d2 e1 e0 h1 h0 c1 m1 m0 c2 s1 s0 s rest front.front
          front.before in
      record {
        found = groups y3 y2 y1 y0 d1 n1 n0 d2 e1 e0 h1 h0 c1 m1 m0 c2 s1 s0 (tail_of rest);
        matched =
            match_timestamp-text_of y3 y2 y1 y0 d1 n1 n0 d2 e1 e0 h1 h0 c1 m1 m0 c2 s1 s0 s rest
              date time separated tail;
        again = ap match_timestamp normal ∙ match_timestamp-result;
        same = same_zone;
        fixed = ap (λ t. normal_text t result_groups) normal ∙ result_fixed ∙ sym normal;
      }

Long-Matched :
    (t : List ℕ)
    → Long t
    → is_date t ≡ true
    → is_time t ≡ true
    → is_separated t ≡ true
    → is_tail (drop 19 t) ≡ true
    → Matched t
Long-Matched _ (long y3 y2 y1 y0 d1 n1 n0 d2 e1 e0 s h1 h0 c1 m1 m0 c2 s1 s0 rest) date time
      separated tail =
    text_of-Matched y3 y2 y1 y0 d1 n1 n0 d2 e1 e0 h1 h0 c1 m1 m0 c2 s1 s0 s rest date time separated
      tail

match_timestamp-cases : (t : List ℕ) → (match_timestamp t ≡ none) ⊎ Matched t
unfolding match_timestamp
match_timestamp-cases t =
    elim (Bool-cases (is_date t && is_time t && is_separated t && is_tail (drop 19 t))) [
      | inl met ↦ inr (
          let first = former (is_date t && is_time t && is_separated t) _ met in
          let second = former (is_date t && is_time t) _ first in
          let time = latter (is_date t) _ second in
          Long-Matched t (length-Long t (is_time-length t time)) (former _ _ second) time
            (latter (is_date t && is_time t) _ first)
            (latter (is_date t && is_time t && is_separated t) _ met))
      | inr unmet ↦ inl (rw unmet refl)
    ]

match_micros-zone :
    (m : Match) (n : List ℕ)
    → offset_seconds n ≡ offset_seconds m.timezone
    → match_micros (record m { timezone = n }) ≡ match_micros m
unfolding match_micros micros_at
match_micros-zone m n same = rw same refl

-- `timestampMicros` and `rfc3339Timestamp` of a text that is matched
module _ (t : List ℕ) (k : Matched t) (o : Option ℤ) (micros : match_micros k.found ≡ o) where
  timestamp_micros-Matched : timestamp_micros t ≡ o
  unfolding timestamp_micros
  timestamp_micros-Matched = ap micros_of k.matched ∙ micros

  timestamp_micros-normal : timestamp_micros (normal_text t k.found) ≡ o
  unfolding timestamp_micros
  timestamp_micros-normal =
      ap micros_of k.again
      ∙ match_micros-zone k.found (normalized_timezone k.found.timezone) k.same.offset
      ∙ micros

rfc3339_timestamp-none :
    (t : List ℕ) (k : Matched t) → match_micros k.found ≡ none → rfc3339_timestamp t ≡ none
unfolding rfc3339_timestamp
rfc3339_timestamp-none t k micros =
    ap (normal_of t) k.matched ∙ ap (λ o. text_unless o (normal_text t k.found)) micros

rfc3339_timestamp-some :
    (t : List ℕ) (k : Matched t) (a : ℤ)
    → match_micros k.found ≡ some a
    → rfc3339_timestamp t ≡ some (normal_text t k.found)
unfolding rfc3339_timestamp
rfc3339_timestamp-some t k a micros =
    ap (normal_of t) k.matched ∙ ap (λ o. text_unless o (normal_text t k.found)) micros

rfc3339_timestamp-normal :
    (t : List ℕ) (k : Matched t) (a : ℤ)
    → match_micros k.found ≡ some a
    → rfc3339_timestamp (normal_text t k.found) ≡ some (normal_text t k.found)
unfolding rfc3339_timestamp
rfc3339_timestamp-normal t k a micros =
    ap (normal_of (normal_text t k.found)) k.again
    ∙ ap
        (λ u.
          text_unless
            (match_micros (record k.found { timezone = normalized_timezone k.found.timezone })) u)
        k.fixed
    ∙ ap (λ o. text_unless o (normal_text t k.found))
        (match_micros-zone k.found (normalized_timezone k.found.timezone) k.same.offset ∙ micros)

unmatched :
    (t : List ℕ)
    → match_timestamp t ≡ none
    → (timestamp_micros t ≡ none) × (rfc3339_timestamp t ≡ none)
unfolding timestamp_micros rfc3339_timestamp
unmatched t h = (ap micros_of h, ap (normal_of t) h)

-- A text either has no microseconds, and then no normal form; or it has both, the normal form has the
-- same microseconds, and it is its own normal form.
pub rfc3339_timestamp-SameInstant :
    (t : List ℕ)
    → ((timestamp_micros t ≡ none) × (rfc3339_timestamp t ≡ none))
      ⊎ ((a : ℤ) × (u : List ℕ) × (timestamp_micros t ≡ some a)
          × (rfc3339_timestamp t ≡ some u)
          × (timestamp_micros u ≡ some a)
          × (rfc3339_timestamp u ≡ some u))
rfc3339_timestamp-SameInstant t = elim (match_timestamp-cases t) [
  | inl unmet ↦ inl (unmatched t unmet)
  | inr k ↦ elim (Option-cases (match_micros k.found)) [
    | inl out ↦ inl (timestamp_micros-Matched t k none out, rfc3339_timestamp-none t k out)
    | inr (a, micros) ↦ inr (
      a,
      normal_text t k.found,
      timestamp_micros-Matched t k (some a) micros,
      rfc3339_timestamp-some t k a micros,
      timestamp_micros-normal t k (some a) micros,
      rfc3339_timestamp-normal t k a micros,
    )
  ]
]
