-- ===== src/Types/Closure.antt =====
-- FactGenerator/include/TypeAccumulator.hpp: the accumulated set is closed under components, has
-- the types it is started on, and the recursion ends.
use cclyzerpp.Prelude.{
  ℕ, zero, suc, true, some, List, [], ◌∷◌, ◌≡◌, ◌⊎◌, arith, Bool-cases, Option-cases, inl, inr,
  subst, sym, Occurs,
}
use cclyzerpp.Ir.{LlvmType}
use cclyzerpp.Gen.{has_type}
use cclyzerpp.Types.View.{TypeView}
use cclyzerpp.Types.Accumulator.{components, visit_types}

-- Every type of the first list is in the set.
abbrev pub Included : List LlvmType → List LlvmType → Type 0
Included ts acc = (t : LlvmType) → Occurs t ts → has_type t acc ≡ true

abbrev pub Extends : List LlvmType → List LlvmType → Type 0
Extends acc acc' = (t : LlvmType) → has_type t acc ≡ true → has_type t acc' ≡ true

pub has_type-cons :
    (u t : LlvmType) (acc : List LlvmType) → has_type t acc ≡ true → has_type t (u ∷ acc) ≡ true
unfolding has_type
has_type-cons u t acc h = ground arith

pub has_type-head : (t : LlvmType) (acc : List LlvmType) → has_type t (t ∷ acc) ≡ true
unfolding has_type
has_type-head t acc = ground arith

module _ (view : LlvmType → TypeView) where
  -- The steps of `visit_types` that return.
  visit_types-some :
      (fuel : ℕ) (t : LlvmType) (ts acc r : List LlvmType)
      → visit_types view (suc fuel) (t ∷ ts) acc ≡ some r
      → ((has_type t acc ≡ true) × (visit_types view (suc fuel) ts acc ≡ some r))
        ⊎ ((acc' : List LlvmType) × (visit_types view fuel (components (view t).shape) (t ∷ acc)
              ≡ some acc')
            × (visit_types view (suc fuel) ts acc' ≡ some r))
  unfolding visit_types
  visit_types-some fuel t ts acc r h = elim (Bool-cases (has_type t acc)) [
    | inl e ↦ inl (e, rw (e, visit_types) at h)
    | inr e ↦ elim (Option-cases (visit_types view fuel (components (view t).shape) (t ∷ acc))) [
      | inl e' ↦ cc (rw (e, visit_types, e') at h)
      | inr (acc', e') ↦ inr (acc', e', rw (e, visit_types, e') at h)
    ]
  ]

  -- Without fuel, nothing is added.
  visit_types-zero :
      (ts acc r : List LlvmType)
      → visit_types view zero ts acc ≡ some r
      → (acc ≡ r) × Included ts acc
  unfolding visit_types
  visit_types-zero [] acc r h = (cc, λ u m. absurd m)
  visit_types-zero (t ∷ ts) acc r h = elim (Bool-cases (has_type t acc)) [
    | inl e ↦
        let rest = visit_types-zero ts acc r (rw e at h) in (rest.0, λ u m. included u m rest.1 e)
    | inr e ↦ cc (rw e at h)
  ]
    where
      included :
          (u : LlvmType)
          → Occurs u (t ∷ ts)
          → Included ts acc
          → has_type t acc ≡ true
          → has_type u acc ≡ true
      included u (inl same) i e = rw same e
      included u (inr m) i e = i u m

  pub visit_types-Extends :
      (fuel : ℕ) (ts acc r : List LlvmType) → visit_types view fuel ts acc ≡ some r → Extends acc r
  unfolding visit_types
  visit_types-Extends zero ts acc r h u k =
      subst (λ s. has_type u s ≡ true) (visit_types-zero ts acc r h).0 k
  visit_types-Extends (suc fuel) [] acc r h u k =
      let same : acc ≡ r = cc in subst (λ s. has_type u s ≡ true) same k
  visit_types-Extends (suc fuel) (t ∷ ts) acc r h u k = elim (visit_types-some fuel t ts acc r h) [
    | inl (e, e') ↦ visit_types-Extends (suc fuel) ts acc r e' u k
    | inr (acc', e, e') ↦
        visit_types-Extends (suc fuel) ts acc' r e' u
          (visit_types-Extends fuel _ (t ∷ acc) acc' e u (has_type-cons t u acc k))
  ]

  pub visit_types-Included :
      (fuel : ℕ) (ts acc r : List LlvmType) → visit_types view fuel ts acc ≡ some r → Included ts r
  visit_types-Included zero ts acc r h u m =
      let (same, i) = visit_types-zero ts acc r h in subst (λ s. has_type u s ≡ true) same (i u m)
  visit_types-Included (suc fuel) [] acc r h u m = absurd m
  visit_types-Included (suc fuel) (t ∷ ts) acc r h u m = elim (visit_types-some fuel t ts acc r h) [
    | inl (e, e') ↦ elim m [
      | inl same ↦ rw same (visit_types-Extends (suc fuel) ts acc r e' t e)
      | inr m ↦ visit_types-Included (suc fuel) ts acc r e' u m
    ]
    | inr (acc', e, e') ↦ elim m [
      | inl same ↦ rw same (
          visit_types-Extends (suc fuel) ts acc' r e' t
            (visit_types-Extends fuel _ (t ∷ acc) acc' e t (has_type-head t acc)))
      | inr m ↦ visit_types-Included (suc fuel) ts acc' r e' u m
    ]
  ]

  -- What is new in a set has its components there.
  abbrev pub Closed : List LlvmType → List LlvmType → Type 0
  Closed acc r = (t : LlvmType) → Occurs t r → Occurs t acc ⊎ Included (components (view t).shape) r

  Closed-trans :
      (t : LlvmType) (acc acc' r : List LlvmType)
      → Closed (t ∷ acc) acc'
      → Included (components (view t).shape) acc'
      → Extends acc' r
      → Closed acc' r
      → Closed acc r
  Closed-trans t acc acc' r a i x b u m = elim (b u m) [
    | inr c ↦ inr c
    | inl m' ↦ elim (a u m') [
      | inl (inl same) ↦
          inr (λ c k. x c (i c (subst (λ t. Occurs c (components (view t).shape)) same k)))
      | inl (inr old) ↦ inl old
      | inr c ↦ inr (λ v k. x v (c v k))
    ]
  ]

  pub visit_types-Closed :
      (fuel : ℕ) (ts acc r : List LlvmType) → visit_types view fuel ts acc ≡ some r → Closed acc r
  unfolding visit_types
  visit_types-Closed zero ts acc r h u m =
      inl (subst (λ s. Occurs u s) (sym (visit_types-zero ts acc r h).0) m)
  visit_types-Closed (suc fuel) [] acc r h u m =
      let same : r ≡ acc = cc in inl (subst (λ s. Occurs u s) same m)
  visit_types-Closed (suc fuel) (t ∷ ts) acc r h u m = elim (visit_types-some fuel t ts acc r h) [
    | inl (e, e') ↦ visit_types-Closed (suc fuel) ts acc r e' u m
    | inr (acc', e, e') ↦
        Closed-trans t acc acc' r (visit_types-Closed fuel _ (t ∷ acc) acc' e)
          (visit_types-Included fuel _ (t ∷ acc) acc' e)
          (visit_types-Extends (suc fuel) ts acc' r e') (visit_types-Closed (suc fuel) ts acc' r e')
          u m
  ]
