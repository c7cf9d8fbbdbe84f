-- ===== src/Tests/Texts.antt =====
-- Instances of the theorems on refmodes, types, signatures and options.
use cclyzerpp.Prelude.{
  Text, true, false, text_eq, if◌then◌else◌, ℕ, text, to_text, false, none, some, List, [], ◌∷◌,
  ◌++◌, ◌≡◌, ◌≢◌, refl, All, is_space, suffix_from_last, ◌==◌, arith, ◌↔◌,
}
use cclyzerpp.Ir.{LlvmType}
use cclyzerpp.Predicates.{signature}
use cclyzerpp.Context.{ContextManager}
use cclyzerpp.Refmode.Numbering.{compute_numbering, find_number}
use cclyzerpp.Refmode.Distinct.{compute_numbering-injective}
use cclyzerpp.Refmode.Constants.{constant_refmode-injective}
use cclyzerpp.Types.View.{TypeView, pointer_shape}
use cclyzerpp.Types.Accumulator.{components, visit_types}
use cclyzerpp.Types.Closure.{Included}
use cclyzerpp.Types.Fuel.{IsUniverse, IsClosed, visit_types-total}
use cclyzerpp.Signatures.{
  int_arg, string_arg, integer_value, string_value, array_value, write_pts_signature,
}
use cclyzerpp.Signatures.Typing.{WritesColumns, write_pts_signature-WritesColumns}
use cclyzerpp.Sensitivity.{callsite2, context_sensitivity_to_string, read_sensitivity}
use cclyzerpp.Sensitivity.RoundTrip.{EndsToken, read-to_string}
use cclyzerpp.Assembly.{canonicalize}
use cclyzerpp.Assembly.Canonical.{canonicalize-All}
use cclyzerpp.Gen.{pos}
use cclyzerpp.Analysis.{
  no_alias, may_alias, VarPointsTo, alias_query, shares_target, has_text, insert_if,
}
use cclyzerpp.Analysis.NoAlias.{PointsTo, alias_query-no_alias_iff}
use cclyzerpp.Analysis.Assertions.{
  check_assertions, check_relations, check_relation, assertion_relations, Holds,
  check_assertions-none_iff,
}
use cclyzerpp.Tests.Data.{identity, seven, start, i32}

to_text_example : to_text 1407 ≡ text "1407"
unfolding to_text text
to_text_example = refl

suffix_example : suffix_from_last (λ c. c == b'%') (text "<m>:f:%x%1") ≡ some (text "%1")
unfolding suffix_from_last text
suffix_example = refl

unnamed_number : find_number 11 (compute_numbering identity) ≡ some 0
unfolding compute_numbering find_number
unnamed_number = refl

compute_numbering-injective_example : ◌≡◌ {A = ℕ} 11 11
compute_numbering-injective_example =
    compute_numbering-injective identity 11 11 0 (omega arith) unnamed_number unnamed_number

abbrev manager : ContextManager
manager = record {
  contexts = record { anchor = none; numbering = []; prefix = b'm' ∷ []; is_function = false } ∷ [];
  function_index = none;
  instr_index = 0;
  constant_index = 3;
}

constant_refmode-injective_example : ◌≡◌ {A = ℕ} 3 3
constant_refmode-injective_example =
    constant_refmode-injective seven seven manager manager refl refl

-- Every type is a pointer, and points to the same one.
abbrev view : LlvmType → TypeView
view t = record { sizes = none; shape = pointer_shape i32 0 }

view-IsUniverse : IsUniverse view (i32 ∷ [])
unfolding components
view-IsUniverse t m c m' = m'

visit_types-total_example :
    (r : List LlvmType) × (visit_types view 1 (i32 ∷ []) [] ≡ some r)
    × Included (i32 ∷ []) r
    × IsClosed view r
visit_types-total_example =
    visit_types-total view (i32 ∷ []) view-IsUniverse 1 (i32 ∷ []) (omega arith) (λ t m. m)

write_pts_signature-WritesColumns_example :
    WritesColumns signature.arg_points_to_global
      (int_arg ∷ string_arg ∷ [])
      (b'f' ∷ [])
      (array_value (integer_value (pos 0) ∷ string_value (b'g' ∷ []) ∷ []))
      start
      (write_pts_signature signature.arg_points_to_global
        (int_arg ∷ string_arg ∷ [])
        (b'p' ∷ [])
        (b'f' ∷ [])
        (array_value (integer_value (pos 0) ∷ string_value (b'g' ∷ []) ∷ []))
        start)
write_pts_signature-WritesColumns_example =
    write_pts_signature-WritesColumns signature.arg_points_to_global (int_arg ∷ string_arg ∷ [])
      (b'p' ∷ []) (b'f' ∷ []) (array_value (integer_value (pos 0) ∷ string_value (b'g' ∷ []) ∷ []))
      start

space : EndsToken (b' ' ∷ b'x' ∷ [])
unfolding is_space
space = refl

read-to_string_example :
    read_sensitivity (context_sensitivity_to_string callsite2 ++ b' ' ∷ b'x' ∷ [])
    ≡ (some callsite2, b' ' ∷ b'x' ∷ [])
read-to_string_example = read-to_string callsite2 (b' ' ∷ b'x' ∷ []) space

canonicalize-All_example : All (λ c. (c ≢ 9) × (c ≢ 10)) (canonicalize (b'a' ∷ 9 ∷ 10 ∷ []))
canonicalize-All_example = canonicalize-All (b'a' ∷ 9 ∷ 10 ∷ [])

-- Two pointers to different allocations.
abbrev points_to : List VarPointsTo
points_to =
    record { alloc_context = pos 0; target = b'a' ∷ []; pointer_context = pos 0; from = 1 }
    ∷ record { alloc_context = pos 0; target = b'b' ∷ []; pointer_context = pos 0; from = 2 }
    ∷ []

may_not_no : may_alias ≢ no_alias
may_not_no = λ e. cc

alias_query-no_alias_iff_example :
    (alias_query may_alias points_to 1 2 ≡ no_alias)
    ↔ (◌≢◌ {A = ℕ} 1 2 × ¬ ((t : Text) × PointsTo points_to 1 t × PointsTo points_to 2 t))
alias_query-no_alias_iff_example = alias_query-no_alias_iff may_alias points_to 1 2 may_not_no

alias_query_test : alias_query may_alias points_to 1 2 ≡ no_alias
unfolding alias_query shares_target has_text insert_if text_eq
alias_query_test = refl

-- No relation has a tuple.
check_assertions-none_iff_example :
    (check_assertions (λ n. some 0) true ≡ none)
    ↔ All (λ n. Holds (λ m. some 0) true (some 0)) assertion_relations
check_assertions-none_iff_example = check_assertions-none_iff (λ n. some 0) true

check_assertions_test :
    check_assertions (λ n. if text_eq n (text "assert_has_repr") then some 2 else none) false
    ≡ some (text "Datalog assertion failed: assert_has_repr")
unfolding check_assertions check_relations check_relation assertion_relations text_eq text
check_assertions_test = refl
