-- ===== src/Demangler.antt =====
-- FactGenerator/include/Demangler.hpp.
use cclyzerpp.Prelude.{
  ℕ, suc, Text, Bool, false, ◌&&◌, Option, none, some, [], ◌∷◌, ltb, leb, ◌==◌, if◌then◌else◌,
}
use cclyzerpp.Externals.{Externals}

-- The number of leading underscores (`find_first_not_of`), and the character behind them.
skip_underscores : ℕ → Text → Option (ℕ × ℕ)
skip_underscores n [] = none
skip_underscores n (c ∷ s) = if c == b'_' then skip_underscores (suc n) s else some (n, c)

unfoldable pub is_itanium_encoding : Text → Bool
unfolding skip_underscores
is_itanium_encoding s = elim (skip_underscores 0 s) [
  | none ↦ false
  | some (n, c) ↦ ltb 0 n && leb n 4 && c == b'Z'
]

unfoldable pub demangle : Externals → Text → Text
demangle x s = elim (x.cxa_demangle s) [ none ↦ s | some t ↦ t ]
