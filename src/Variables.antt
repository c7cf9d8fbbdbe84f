-- ===== src/Variables.antt =====
-- FactGenerator/src/Variables.cpp: the variables met in a function are written when it ends.
use cclyzerpp.Prelude.{
  ℕ, Text, Bool, ◌||◌, Option, none, some, List, [], ◌∷◌, ◌==◌, suffix_from_last,
}
use cclyzerpp.Predicates.{variable}
use cclyzerpp.Ir.{LlvmType, Function}
use cclyzerpp.Context.{get_name}
use cclyzerpp.Gen.{
  Gen, pure, stop, null_dereference, ◌>>=◌, ◌>>◌, when_some, for_each, str, write_fact, record_type,
  current_function, done,
}

-- `find_last_of("%!")` looks for these.
abbrev pub is_sigil : ℕ → Bool
is_sigil c = c == b'%' || c == b'!'

unfoldable pub write_variable : Text → Text × LlvmType → Gen (Unit {0})
write_variable funcname v = do
  write_fact variable.id v.0 []
  ty ← record_type v.1
  write_fact variable.type v.0 (str ty ∷ [])
  write_fact variable.in_func v.0 (str funcname ∷ [])
  when_some (suffix_from_last is_sigil v.0) (λ n. write_fact variable.name v.0 (str n ∷ []))

unfoldable pub get_variables : Gen (List (Text × LlvmType))
get_variables s = done s.variable_types s

unfoldable pub clear_variables : Gen (Unit {0})
clear_variables s = done tt (record s { variable_types = [] })

unfoldable pub require_function : Option Function → Gen Function
require_function none = stop null_dereference
require_function (some f) = pure f

unfoldable pub write_local_variables : Gen (Unit {0})
write_local_variables = do
  f ← current_function
  f' ← require_function f
  vars ← get_variables
  for_each vars (write_variable (b'@' ∷ get_name f'.value))
  clear_variables
