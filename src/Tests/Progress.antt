-- ===== src/Tests/Progress.antt =====
-- Instances of the theorems on what returns and what is written of types, and of those on the numbering,
-- the Python entry and the order of an alias query.
use cclyzerpp.Prelude.{◌<◌, ◌^◌, true, false, some, List, [], ◌∷◌, ◌≡◌, refl, ◌↔◌, All, arith}
use cclyzerpp.Ir.{LlvmType}
use cclyzerpp.Gen.{State, returns, final}
use cclyzerpp.Refmode.Numbering.{compute_numbering, find_number}
use cclyzerpp.Refmode.Counting.{function_values}
use cclyzerpp.Refmode.Bounds.{compute_numbering-below}
use cclyzerpp.Analysis.{VarPointsTo, may_alias, alias_query}
use cclyzerpp.Analysis.Symmetry.{alias_query-symmetric}
use cclyzerpp.Gen.{pos}
use cclyzerpp.Options.{set_output_dir}
use cclyzerpp.Python.{pyfactgen}
use cclyzerpp.Python.Output.{ran, accepted, pyfactgen-set_output_dir}
use cclyzerpp.Types.{write_types}
use cclyzerpp.Types.View.{TypeView, pointer_shape}
use cclyzerpp.Types.Accumulator.{components}
use cclyzerpp.Types.Closure.{Included}
use cclyzerpp.Types.Fuel.{IsUniverse, IsClosed}
use cclyzerpp.Types.Written.{IsDeclared, write_types-IsDeclared}
use cclyzerpp.Tests.Data.{identity, start, i32}
use cclyzerpp.Tests.Disk.{test_disk}

unnamed_parameter : find_number 11 (compute_numbering identity) ≡ some 0
unfolding compute_numbering find_number
unnamed_parameter = refl

compute_numbering-below_example : (0 < function_values identity) × (0 < 2 ^ 32)
compute_numbering-below_example = compute_numbering-below identity 11 0 unnamed_parameter

abbrev rows : List VarPointsTo
rows =
    record { alloc_context = pos 0; target = b'a' ∷ []; pointer_context = pos 0; from = 1 }
    ∷ record { alloc_context = pos 0; target = b'b' ∷ []; pointer_context = pos 0; from = 2 }
    ∷ []

alias_query-symmetric_example : alias_query may_alias rows 1 2 ≡ alias_query may_alias rows 2 1
alias_query-symmetric_example = alias_query-symmetric may_alias rows 1 2

abbrev disk : test_disk.Disk
disk = (b'm' ∷ [], false) ∷ []

pyfactgen-set_output_dir_example :
    (ran test_disk (pyfactgen test_disk ((b'm' ∷ []) ∷ []) (b'o' ∷ []) (9 ∷ []) disk)
      ≡ some ((b'o' ∷ [], true) ∷ disk))
    ↔ (All (λ p. test_disk.exists disk p ≡ true) ((b'm' ∷ []) ∷ [])
        × (accepted test_disk (set_output_dir test_disk (b'o' ∷ []) true disk)
            ≡ some ((b'o' ∷ [], true) ∷ disk)))
pyfactgen-set_output_dir_example =
    pyfactgen-set_output_dir test_disk ((b'm' ∷ []) ∷ []) (b'o' ∷ []) (9 ∷ []) disk
      ((b'o' ∷ [], true) ∷ disk)

-- Every type is a pointer, and points to the same one.
abbrev view : LlvmType → TypeView
view t = record { sizes = some (8, 8); shape = pointer_shape i32 0 }

view-IsUniverse : IsUniverse view (i32 ∷ [])
unfolding components
view-IsUniverse t m c m' = m'

abbrev met : State
met = record start { types = i32 ∷ [] }

write_types-IsDeclared_example :
    (returns (write_types 1 view met) ≡ true)
    × ((r : List LlvmType) × Included met.types r
        × IsClosed view r
        × All (IsDeclared view (final (write_types 1 view met)).log) r)
write_types-IsDeclared_example =
    write_types-IsDeclared view (i32 ∷ []) view-IsUniverse 1 met (omega arith) (λ t m. m)
