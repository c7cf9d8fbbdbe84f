-- ===== src/Externals.antt =====
-- The functions of other projects that the fact generator calls. They are parameters of the model.
use cclyzerpp.Prelude.{ℕ, Text, Bool, Option}

pub record Externals : Type 0 where
  -- `abi::__cxa_demangle`; `none` where its status is not 0
  pub cxa_demangle : Text → Option Text
  -- `boost::hash<std::string>`
  pub string_hash : Text → ℕ
  -- `std::regex_search`: the text, then the regular expression
  pub regex_search : Text → Text → Bool
  -- the constructor of `std::regex` accepts the text
  pub regex_compiles : Text → Bool
