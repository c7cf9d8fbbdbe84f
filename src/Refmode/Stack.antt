-- ===== src/Refmode/Stack.antt =====
-- Refmodes leave the stack of contexts as it is, up to the cached numberings.
use cclyzerpp.Prelude.{Text, List, [], ◌∷◌, ◌≡◌, refl, map, arith}
use cclyzerpp.Ir.{Header, Value, plain, metadata_text, metadata_local, Constant, constant_header}
use cclyzerpp.Context.{Context, ContextManager, constant_count, frame}
use cclyzerpp.Refmode.{
  number_in, numbered_refmode, refmode_of, value_refmode, block_refmode, constant_refmode,
  global_value_refmode,
}

pub record KeepsStack (f : ContextManager → Text × ContextManager) : Type 0 where
  pub stack : (m : ContextManager) → map frame (f m).1.contexts ≡ map frame m.contexts
  pub index : (m : ContextManager) → (f m).1.function_index ≡ m.function_index

frames-number_in : (h : Header) (cs : List Context) → map frame (number_in h cs).1 ≡ map frame cs
unfolding number_in
frames-number_in h [] = refl
frames-number_in h (c ∷ cs) = ground (arith, frames-number_in h cs)

numbered_refmode-KeepsStack : (h : Header) → KeepsStack (numbered_refmode h)
unfolding numbered_refmode
numbered_refmode-KeepsStack h = record {
  stack = λ m. frames-number_in h m.contexts;
  index = λ m. refl;
}

pub refmode_of-KeepsStack : (v : Value) → KeepsStack (refmode_of v)
unfolding refmode_of
refmode_of-KeepsStack (plain h) = record {
  stack = λ m. ground (arith, (numbered_refmode-KeepsStack h).stack m);
  index = λ m. ground (arith, (numbered_refmode-KeepsStack h).index m);
}
refmode_of-KeepsStack (metadata_text h t) = record {
  stack = λ m. ground arith;
  index = λ m. ground arith;
}
refmode_of-KeepsStack (metadata_local h ty v) = record {
  stack = λ m. ground (arith, (refmode_of-KeepsStack v).stack m);
  index = λ m. ground (arith, (refmode_of-KeepsStack v).index m);
}

pub block_refmode-KeepsStack : (v : Value) → KeepsStack (block_refmode v)
unfolding block_refmode
block_refmode-KeepsStack v = record {
  stack = λ m. (refmode_of-KeepsStack v).stack m;
  index = λ m. (refmode_of-KeepsStack v).index m;
}

pub value_refmode-KeepsStack : (v : Value) → KeepsStack (value_refmode v)
unfolding value_refmode
value_refmode-KeepsStack v = record {
  stack = λ m. ground (arith, (refmode_of-KeepsStack v).stack m);
  index = λ m. ground (arith, (refmode_of-KeepsStack v).index m);
}

pub global_value_refmode-KeepsStack : (v : Value) → KeepsStack (global_value_refmode v)
unfolding global_value_refmode
global_value_refmode-KeepsStack v = record {
  stack = λ m. (refmode_of-KeepsStack v).stack m;
  index = λ m. (refmode_of-KeepsStack v).index m;
}

pub constant_refmode-KeepsStack : (c : Constant) → KeepsStack (constant_refmode c)
unfolding constant_refmode constant_count
constant_refmode-KeepsStack c = record {
  stack = λ m. (refmode_of-KeepsStack (plain (constant_header c))).stack (constant_count m).1;
  index = λ m. (refmode_of-KeepsStack (plain (constant_header c))).index (constant_count m).1;
}

-- A refmode that does not change the engine.
pub pure-KeepsStack : (f : ContextManager → Text) → KeepsStack (λ m. (f m, m))
pure-KeepsStack f = record { stack = λ m. refl; index = λ m. refl }
