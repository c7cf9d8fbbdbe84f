-- ===== src/Assembly.antt =====
-- FactGenerator/src/Assembly.cpp: inline assembly is written as a constant of its own kind.
pub mod Canonical
use cclyzerpp.Prelude.{ℕ, Text, text, List, [], ◌∷◌, ◌++◌, ◌==◌, if◌then◌else◌}
use cclyzerpp.Predicates.{constant, inline_asm}
use cclyzerpp.Ir.{InlineAsm}
use cclyzerpp.Refmode.{asm_refmode}
use cclyzerpp.Externals.{Externals}
use cclyzerpp.Gen.{Gen, pure, ◌>>=◌, ◌>>◌, str, num, write_fact, record_type, insert_type, refmode}

-- `boost::replace_all` of one character by a text
unfoldable pub replace_all : ℕ → Text → Text → Text
replace_all old new [] = []
replace_all old new (c ∷ s) =
    let rest = replace_all old new s in if c == old then new ++ rest else c ∷ rest

unfoldable pub canonicalize : Text → Text
unfolding replace_all
canonicalize s = replace_all 10 (b'\\' ∷ b'n' ∷ []) (replace_all 9 (b'\\' ∷ b't' ∷ []) s)

unfoldable pub write_asm : Externals → InlineAsm → Gen Text
write_asm x a = do
  id ← refmode (λ m. (asm_refmode m, m))
  let constraints = canonicalize a.constraint_string
  let assem = canonicalize a.asm_string
  let val = text "<asm>(" ++ assem ++ text ")"
  write_fact constant.id id []
  ty ← record_type a.header.type
  write_fact constant.type id (str ty ∷ [])
  write_fact constant.value id (str val ∷ [])
  write_fact constant.hash id (num (x.string_hash val) ∷ [])
  insert_type a.header.type
  write_fact inline_asm.id id []
  write_fact inline_asm.constraints id (str constraints ∷ [])
  write_fact inline_asm.text id (str assem ∷ [])
  pure id
