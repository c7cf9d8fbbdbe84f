-- ===== src/Wrapper/Files.antt =====
-- FactGenerator/src/FactGenerator.cpp with FactWriter.cpp: what a reader of the files finds.
use cclyzerpp.Prelude.{
  Text, text_eq, text_eq_refl, none, List, [], ◌∷◌, ◌≡◌, refl, sym, ap, ◌∙◌, subst, Bool-cases, inl,
  inr, ◌⊎◌, All, Occurs, Occurs-append_left, Occurs-append_right,
}
use cclyzerpp.Predicates.{Predicate, constant, variable, predicates_reg}
use cclyzerpp.Ir.{Function, Module}
use cclyzerpp.Externals.{Externals}
use cclyzerpp.Generate.{process_module}
use cclyzerpp.Gen.{Fact, State, Outcome, done, final}
use cclyzerpp.Integrity.{entity, references, HasIntegrity}
use cclyzerpp.Integrity.Declared.{process_module-declared}
use cclyzerpp.Writer.{FactWriter, name_of}
use cclyzerpp.Writer.Contents.{contents_of, contents_of-new_fact_writer}
use cclyzerpp.Writer.RoundTrip.{read_rows, HasColumns, row_of, rows_of, read_rows-lines_of}
use cclyzerpp.Wrapper.{files_behind}

-- The rows that a reader finds in the file of a predicate.
unfoldable pub rows_in : Predicate → FactWriter → List (List Text)
unfolding contents_of read_rows
rows_in p fw = read_rows 9 [] [] (contents_of (name_of p) fw)

rows_of-Occurs :
    (f : Fact) (facts : List Fact)
    → Occurs f facts
    → Occurs (row_of f) (rows_of (name_of f.predicate) facts)
unfolding rows_of
rows_of-Occurs f [] m = absurd m
rows_of-Occurs f (g ∷ gs) (inl same) =
    subst (λ g. Occurs (row_of f) (rows_of (name_of f.predicate) (g ∷ gs))) same
      (rw (text_eq_refl (name_of f.predicate)) (
        Occurs-append_right (row_of f) (rows_of (name_of f.predicate) gs) (row_of f ∷ [])
          (inl refl)))
rows_of-Occurs f (g ∷ gs) (inr m) =
    elim (Bool-cases (text_eq (name_of g.predicate) (name_of f.predicate))) [
      | inl e ↦ rw e (Occurs-append_left (row_of f) _ (row_of g ∷ []) (rows_of-Occurs f gs m))
      | inr e ↦ rw e (rows_of-Occurs f gs m)
    ]

rows_in-files_behind :
    {A : Type 0} (join : Text → Text → Text) (dir : Text) (o : Outcome A) (p : Predicate)
    → All (HasColumns 9) (final o).log
    → rows_in p (files_behind join dir o) ≡ rows_of (name_of p) (final o).log
unfolding rows_in files_behind
rows_in-files_behind join dir o p h =
    ap (read_rows 9 [] [])
      (contents_of-new_fact_writer join predicates_reg dir (9 ∷ []) (name_of p) (final o).log)
    ∙ read_rows-lines_of 9 refl (name_of p) (final o).log h

-- A fact of a run is a row of its predicate's file.
files_behind-Occurs :
    {A : Type 0} (join : Text → Text → Text) (dir : Text) (o : Outcome A) (f : Fact)
    → All (HasColumns 9) (final o).log
    → Occurs f (final o).log
    → Occurs (row_of f) (rows_in f.predicate (files_behind join dir o))
files_behind-Occurs join dir o f h m =
    subst (Occurs (row_of f)) (sym (rows_in-files_behind join dir o f.predicate h))
      (rows_of-Occurs f (final o).log m)

-- When `processModule`, given a module with at least one function and no signatures, returns, and
-- no column has a tab or a line feed, then each fact is a row of its predicate's file, and each
-- operand that the fact refers to is a row of the file of the constants or of that of the variables,
-- if the facts before had integrity.
pub files_behind-declared :
    (x : Externals) (m : Module) (f : Function) (fs : List Function) (path sensitivity : Text)
    (s t : State) (u : Unit {0}) (join : Text → Text → Text) (dir : Text) (fact : Fact) (r : Text)
    → m.functions ≡ f ∷ fs
    → HasIntegrity s
    → process_module x m path none sensitivity s ≡ done u t
    → All (HasColumns 9) t.log
    → Occurs fact t.log
    → Occurs r (references fact)
    → let files = files_behind join dir (process_module x m path none sensitivity s) in
      Occurs (row_of fact) (rows_in fact.predicate files)
      × (Occurs (r ∷ []) (rows_in constant.id files) ⊎ Occurs (r ∷ []) (rows_in variable.id files))
files_behind-declared x m f fs path sensitivity s t u join dir fact r e h d columns o o' =
    subst
      (λ out.
        Occurs (row_of fact) (rows_in fact.predicate (files_behind join dir out))
        × (Occurs (r ∷ []) (rows_in constant.id (files_behind join dir out))
            ⊎ Occurs (r ∷ []) (rows_in variable.id (files_behind join dir out))))
      (sym d)
      (
        files_behind-Occurs join dir (done u t) fact columns o,
        elim (process_module-declared x m f fs path sensitivity s t u fact r e h d o o') [
          | inl k ↦ inl (files_behind-Occurs join dir (done u t) (entity constant.id r) columns k)
          | inr k ↦ inr (files_behind-Occurs join dir (done u t) (entity variable.id r) columns k)
        ],
      )
