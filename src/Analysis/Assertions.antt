-- ===== src/Analysis/Assertions.antt =====
-- src/PAInterface.cpp: `checkAssertions`, over the relations of the Souffle program.
use cclyzerpp.Prelude.{
  ℕ, Text, text, Bool, false, ◌==◌, ==_iff, Option, none, some, List, [], ◌∷◌, ◌++◌, ◌≡◌, refl, ◌↔◌,
  inl, inr, All, Bool-cases, Option-cases, if◌then◌else◌,
}

-- `assertion_relations`
unfoldable pub assertion_relations : List Text
unfolding text
assertion_relations =
    text "assert_every_allocation_has_a_type"
    ∷ text "assert_type_compatible_constant_points_to"
    ∷ text "assert_type_compatible_ptr_points_to"
    ∷ text "assert_every_gep_constant_expr_points_to_something"
    ∷ text "assert_every_pointer_constant_points_to_something"
    ∷ text "assert_global_allocations_have_static_types"
    ∷ text "assert_global_allocations_have_dynamic_types"
    ∷ text "assert_global_allocations_have_one_type"
    ∷ text "assert_var_points_to_implies_reachable"
    ∷ text "assert_bitcast_operand_in_same_function"
    ∷ text "subset._merge.assert_reachable_calls_have_contexts"
    ∷ text "subset._merge.assert_reachable_calls_have_context_items"
    ∷ text "assert_subset_var_points_to_inhabited_implies_unification"
    ∷ text "assert_subset_aliases_are_unification_aliases"
    ∷ text "assert_unification_var_points_to_unique"
    ∷ text "assert_every_allocation_has_a_region"
    ∷ text "assert_every_allocation_has_one_region"
    ∷ text "assert_has_repr"
    ∷ text "assert_unique_repr"
    ∷ text "assert_basic_or_path"
    ∷ text "debuginfo_invalid_entry"
    ∷ text "schema_invalid_alias"
    ∷ text "schema_invalid_constant"
    ∷ text "schema_invalid_func"
    ∷ text "schema_invalid_global_var"
    ∷ text "schema_invalid_instr"
    ∷ text "schema_invalid_type"
    ∷ text "user_option_invalid"
    ∷ []

-- The message of the `logic_error` of the first failing relation. `size` is the number of tuples of
-- a relation, and `none` where `getRelation` returns no relation.
module _ (size : Text → Option ℕ) (expect : Bool) where
  unfoldable pub check_relation : Text → Option ℕ → Option Text
  check_relation name none =
      if expect then some (text "Expected to find assertion relation: " ++ name) else none
  check_relation name (some n) =
      if n == 0 then none else some (text "Datalog assertion failed: " ++ name)

  unfoldable pub check_relations : List Text → Option Text
  check_relations [] = none
  check_relations (name ∷ names) =
      let rest = check_relations names in
      elim (check_relation name (size name)) [ none ↦ rest | some e ↦ some e ]

  unfoldable pub check_assertions : Option Text
  unfolding check_relations
  check_assertions = check_relations assertion_relations

  -- A relation has no tuples; it may be missing only where it is not expected.
  abbrev pub Holds : Option ℕ → Type 0
  Holds none = expect ≡ false
  Holds (some n) = n ≡ 0

  check_relation-none_iff : (name : Text) (o : Option ℕ) → (check_relation name o ≡ none) ↔ Holds o
  unfolding check_relation
  check_relation-none_iff name none = elim (Bool-cases expect) [
    | inl e ↦ rw e (λ h. cc, λ h. cc)
    | inr e ↦ rw e (λ h. refl, λ h. refl)
  ]
  check_relation-none_iff name (some n) = elim (Bool-cases (n == 0)) [
    | inl e ↦ rw e (λ h. (==_iff n 0).0 e, λ h. refl)
    | inr e ↦ rw e (λ h. cc, λ h. cc (e, (==_iff n 0).1 h))
  ]

  check_relations-none_iff :
      (names : List Text) → (check_relations names ≡ none) ↔ All (λ n. Holds (size n)) names
  unfolding check_relations
  check_relations-none_iff [] = (λ h. tt, λ h. refl)
  check_relations-none_iff (name ∷ names) =
      let one = check_relation-none_iff name (size name) in
      let ih = check_relations-none_iff names in
      elim (Option-cases (check_relation name (size name))) [
        | inl e ↦ rw (e, check_relations) (λ h. (one.0 e, ih.0 h), λ h. ih.1 h.1)
        | inr (m, e) ↦ rw (e, check_relations) (λ h. cc, λ h. cc (e, one.1 h.0))
      ]

  -- `checkAssertions` throws nothing exactly when each assertion relation is empty, or is missing
  -- where relations are not expected.
  pub check_assertions-none_iff :
      (check_assertions ≡ none) ↔ All (λ n. Holds (size n)) assertion_relations
  unfolding check_assertions
  check_assertions-none_iff = check_relations-none_iff assertion_relations
