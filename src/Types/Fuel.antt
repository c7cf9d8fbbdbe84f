-- ===== src/Types/Fuel.antt =====
-- FactGenerator/include/TypeAccumulator.hpp: the recursion ends, since each level adds a type that
-- was not in the set: as much fuel as there are types is enough.
use cclyzerpp.Prelude.{
  ℕ, zero, suc, ◌≤◌, ◌<◌, true, false, some, List, [], ◌∷◌, ◌≡◌, refl, arith, Bool-cases, inl, inr,
  if◌then◌else◌, length, sym, Occurs,
}
use cclyzerpp.Ir.{LlvmType}
use cclyzerpp.Gen.{has_type}
use cclyzerpp.Types.View.{TypeView}
use cclyzerpp.Types.Accumulator.{components, visit_types}
use cclyzerpp.Types.Closure.{
  Extends, Included, has_type-cons, has_type-head, visit_types-Extends, visit_types-Included,
  visit_types-Closed,
}

-- How many of the types are not in the set.
unfoldable missing : List LlvmType → List LlvmType → ℕ
missing [] acc = 0
missing (u ∷ us) acc = if has_type u acc then missing us acc else suc (missing us acc)

missing-le-length : (us acc : List LlvmType) → missing us acc ≤ length us
unfolding missing
missing-le-length [] acc = omega arith
missing-le-length (u ∷ us) acc = ground (arith, missing-le-length us acc)

missing_mono : (us acc acc' : List LlvmType) → Extends acc acc' → missing us acc' ≤ missing us acc
unfolding missing
missing_mono [] acc acc' x = omega arith
missing_mono (u ∷ us) acc acc' x =
    let ih = missing_mono us acc acc' x in
    elim (Bool-cases (has_type u acc)) [
      | inl e ↦ rw (e, x u e) ih
      | inr e ↦ elim (Bool-cases (has_type u acc')) [
        | inl e' ↦ rw (e, e') (omega arith)
        | inr e' ↦ rw (e, e') (omega arith)
      ]
    ]

missing_less :
    (us : List LlvmType) (t : LlvmType) (acc : List LlvmType)
    → Occurs t us
    → has_type t acc ≡ false
    → missing us (t ∷ acc) < missing us acc
unfolding missing
missing_less [] t acc m e = absurd m
missing_less (u ∷ us) t acc (inl same) e =
    let less = missing_mono us acc (t ∷ acc) (λ v. has_type-cons t v acc) in
    let out : has_type u acc ≡ false = rw (sym same) e in
    let there : has_type u (t ∷ acc) ≡ true = rw same (has_type-head u acc) in
    rw (out, there) (omega arith)
missing_less (u ∷ us) t acc (inr m) e =
    let less = missing_less us t acc m e in
    elim (Bool-cases (has_type u acc)) [
      | inl e' ↦ rw (e', has_type-cons t u acc e') less
      | inr e' ↦ elim (Bool-cases (has_type u (t ∷ acc))) [
        | inl k ↦ rw (e', k) (omega arith)
        | inr k ↦ rw (e', k) (omega arith)
      ]
    ]

missing-zero :
    (us acc : List LlvmType) (t : LlvmType)
    → missing us acc ≤ 0
    → Occurs t us
    → has_type t acc ≡ true
unfolding missing
missing-zero [] acc t l m = absurd m
missing-zero (u ∷ us) acc t l m = elim (Bool-cases (has_type u acc)) [
  | inl e ↦ elim m [ inl same ↦ rw same e | inr m' ↦ missing-zero us acc t (rw e at l) m' ]
  | inr e ↦
      let more : suc (missing us acc) ≤ 0 = rw e at l in
      let impossible : ⊥ = omega (arith, more) in absurd impossible
]

-- A list that has the components of each type in it.
abbrev pub IsUniverse : (LlvmType → TypeView) → List LlvmType → Type 0
IsUniverse view us =
    (t : LlvmType)
    → Occurs t us
    → (c : LlvmType) → Occurs c (components (view t).shape)
    → Occurs c us

-- A set that has the components of each type in it.
abbrev pub IsClosed : (LlvmType → TypeView) → List LlvmType → Type 0
IsClosed view r = (t : LlvmType) → Occurs t r → Included (components (view t).shape) r

module _ (view : LlvmType → TypeView) (us : List LlvmType) (closed : IsUniverse view us) where
  visit_types-enough :
      (fuel : ℕ) (ts acc : List LlvmType)
      → missing us acc ≤ fuel
      → ((t : LlvmType) → Occurs t ts → Occurs t us)
      → (r : List LlvmType) × (visit_types view fuel ts acc ≡ some r)
  unfolding visit_types
  visit_types-enough zero [] acc l i = (acc, refl)
  visit_types-enough (suc fuel) [] acc l i = (acc, refl)
  visit_types-enough zero (t ∷ ts) acc l i =
      let (r, e) = visit_types-enough zero ts acc l (λ u m. i u (inr m)) in
      (r, rw (missing-zero us acc t l (i t (inl refl))) e)
  visit_types-enough (suc fuel) (t ∷ ts) acc l i = elim (Bool-cases (has_type t acc)) [
    | inl e ↦
        let (r, e') = visit_types-enough (suc fuel) ts acc l (λ u m. i u (inr m)) in (r, rw e e')
    | inr e ↦
        let less = missing_less us t acc (i t (inl refl)) e in
        let (s, e') =
          visit_types-enough fuel (components (view t).shape) (t ∷ acc) (omega (arith, less, l))
            (closed t (i t (inl refl))) in
        let grown =
          missing_mono us acc s
            (λ u k. visit_types-Extends view fuel _ (t ∷ acc) s e' u (has_type-cons t u acc k)) in
        let (r, e'') =
          visit_types-enough (suc fuel) ts s (omega (arith, grown, l)) (λ u m. i u (inr m)) in
        (r, rw (e, e') e'')
  ]

  -- With as much fuel as there are types in a list that has the roots and the components of each
  -- type in it, the accumulator ends in a set that has the roots and all components of its types.
  pub visit_types-total :
      (fuel : ℕ) (ts : List LlvmType)
      → length us ≤ fuel
      → ((t : LlvmType) → Occurs t ts → Occurs t us)
      → (r : List LlvmType) × (visit_types view fuel ts [] ≡ some r)
        × Included ts r
        × IsClosed view r
  visit_types-total fuel ts l i =
      let bound = missing-le-length us [] in
      let (r, e) = visit_types-enough fuel ts [] (omega (arith, bound, l)) i in
      (
        r,
        e,
        visit_types-Included view fuel ts [] r e,
        λ t m. elim (visit_types-Closed view fuel ts [] r e t m) [ inl k ↦ absurd k | inr k ↦ k ],
      )
