-- ===== src/Json/Limits/Nesting.antt =====
-- The limits on objects and arrays, given those on the values in them.
use ghost_media.Base.{
  ℕ, zero, suc, ◌+◌, ◌≤◌, ◌≡◌, drop, subst, ◌⊎◌, inl, inr, refl, List, length, arith, Bool-cases,
}
use ghost_media.Json.{
  Answer, done, Answer-cases, JsonValue, object, array, Members, no_members, Values, no_values,
  count_members, count_values, add_member, add_value,
}
use ghost_media.Json.Lexer.{parse_string, skip_ws, starts_with}
use ghost_media.Json.Parser.{
  State, parse_object, parse_array, values_loop, members_loop, parse_name, Separator, closes,
  continues, neither, separator, move,
}
use ghost_media.Json.Limits.{
  WithinLimits, object_within, array_within, MembersWithin, no_members_within, ValuesWithin,
  no_values_within, add_value-within, add_member-within,
}
use ghost_media.Json.Limits.Lexemes.{parse_string-short}

Separator-cases :
    (s : Separator)
    → (((end : List ℕ) × (s ≡ closes end)) ⊎ ((end : List ℕ) × (s ≡ continues end))) ⊎ (s ≡ neither)
Separator-cases (closes end) = inl (inl (end, refl))
Separator-cases (continues end) = inl (inr (end, refl))
Separator-cases neither = inr refl

module _ (levels : ℕ) (nested : State → Answer (JsonValue × State))
    (keeps : (s : State) (r : JsonValue × State)
      → nested s ≡ done r
      → WithinLimits levels r.0) where
  values_loop-within :
      (left : ℕ) (s : State) (out : Values) (r : Values × State)
      → ValuesWithin levels out
      → count_values out + left ≤ 8
      → values_loop nested left s out ≡ done r
      → ValuesWithin levels r.0 × (count_values r.0 ≤ 8)
  unfolding values_loop
  values_loop-within zero s out r all few e = cc
  values_loop-within (suc left) s out r all few e = elim (Answer-cases (nested s)) [
    | inr (f, found) ↦ ground (arith, e, found)
    | inl ((v, t), found) ↦
        let (added, count) = add_value-within levels out v all (keeps s (v, t) found) in
        elim (Separator-cases (separator b']' (skip_ws t.rest))) [
          | inl (inl (end, p)) ↦ ground (arith, e, found, p, added, count)
          | inl (inr (end, p)) ↦
              values_loop-within left (move t (skip_ws end)) (add_value out v) r added
                (omega (arith, count)) (ground (arith, e, found, p))
          | inr p ↦ ground (arith, e, found, p)
        ]
  ]

  parse_name-short :
      (s : State) (out : Members) (r : List ℕ × State)
      → parse_name nested s out ≡ done r
      → length r.0 ≤ 4096
  unfolding parse_name
  parse_name-short s out r e = elim (Answer-cases (parse_string s.rest)) [
    | inl (q, found) ↦ ground (arith, e, found, parse_string-short s.rest q found)
    | inr (f, found) ↦ ground (arith, e, found)
  ]

  members_loop-within :
      (left : ℕ) (s : State) (out : Members) (r : Members × State)
      → MembersWithin levels out
      → count_members out + left ≤ 32
      → members_loop nested left s out ≡ done r
      → MembersWithin levels r.0 × (count_members r.0 ≤ 32)
  unfolding members_loop
  members_loop-within zero s out r all few e = cc
  members_loop-within (suc left) s out r all few e = elim (Answer-cases (parse_name nested s out)) [
    | inr (f, named) ↦ ground (arith, e, named)
    | inl ((name, t), named) ↦ elim (Answer-cases (nested t)) [
      | inr (f, found) ↦ ground (arith, e, named, found)
      | inl ((v, u), found) ↦
          let short = parse_name-short s out (name, t) named in
          let (added, count) =
            add_member-within levels out name v all short (keeps t (v, u) found) in
          elim (Separator-cases (separator b'}' (skip_ws u.rest))) [
            | inl (inl (end, p)) ↦ ground (arith, e, named, found, p, added, count)
            | inl (inr (end, p)) ↦
                members_loop-within left (move u (skip_ws end)) (add_member out name v) r added
                  (omega (arith, count)) (ground (arith, e, named, found, p))
            | inr p ↦ ground (arith, e, named, found, p)
          ]
    ]
  ]

  pub parse_object-within :
      (s : State) (r : JsonValue × State)
      → parse_object nested s ≡ done r
      → WithinLimits (suc levels) r.0
  unfolding parse_object
  parse_object-within s r e = elim (Bool-cases (starts_with b'}' (skip_ws (drop 1 s.rest)))) [
    | inl closed ↦
        let same : object no_members ≡ r.0 = ground (arith, e, closed) in
        subst (λ v. WithinLimits (suc levels) v) same
          (object_within no_members_within (omega arith))
    | inr entered ↦
        elim (Answer-cases (members_loop nested 32 (move s (skip_ws (drop 1 s.rest))) no_members)) [
          | inr (f, found) ↦ ground (arith, e, entered, found)
          | inl ((ms, t), found) ↦
              let same : object ms ≡ r.0 = ground (arith, e, entered, found) in
              let (all, few) =
                members_loop-within 32 (move s (skip_ws (drop 1 s.rest))) no_members (ms, t)
                  no_members_within (omega arith) found in
              subst (λ v. WithinLimits (suc levels) v) same (object_within all few)
        ]
  ]

  pub parse_array-within :
      (s : State) (r : JsonValue × State)
      → parse_array nested s ≡ done r
      → WithinLimits (suc levels) r.0
  unfolding parse_array
  parse_array-within s r e = elim (Bool-cases (starts_with b']' (skip_ws (drop 1 s.rest)))) [
    | inl closed ↦
        let same : array no_values ≡ r.0 = ground (arith, e, closed) in
        subst (λ v. WithinLimits (suc levels) v) same (array_within no_values_within (omega arith))
    | inr entered ↦
        elim (Answer-cases (values_loop nested 8 (move s (skip_ws (drop 1 s.rest))) no_values)) [
          | inr (f, found) ↦ ground (arith, e, entered, found)
          | inl ((vs, t), found) ↦
              let same : array vs ≡ r.0 = ground (arith, e, entered, found) in
              let (all, few) =
                values_loop-within 8 (move s (skip_ws (drop 1 s.rest))) no_values (vs, t)
                  no_values_within (omega arith) found in
              subst (λ v. WithinLimits (suc levels) v) same (array_within all few)
        ]
  ]
