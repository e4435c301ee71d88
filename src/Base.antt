-- ===== src/Base.antt =====
-- The names that all modules share: numbers, words, Booleans, lists, options, outcomes.
mod Word
mod Array
mod Outcome
pub mod Table
pub mod Bits
pub use Word.*
pub use Array.*
pub use Prim.Native.Nat.{ℕ, zero, suc, ◌+◌, ◌-◌, ◌*◌, ◌/◌, ◌%◌, ◌^◌, ◌≤◌, ◌<◌, min, max}
pub use Prim.Native.Nat.{bit_and, bit_or, bit_xor}
pub use mathlib.Core.Path.{◌≡◌, refl, sym, ◌∙◌, ap, ap₂, fun_ext, subst}
pub use mathlib.Core.Logic.{◌≢◌, ◌↔◌, ◌⊎◌, inl, inr}
pub use mathlib.Core.Bool.{Bool, true, false, not, ◌&&◌, ◌||◌}
pub use mathlib.Core.Option.{Option, none, some}
pub use mathlib.Core.List.{List, [], ◌∷◌, ◌++◌, map}
pub use native.Mathlib.Omega.{arith}
pub use Outcome.{Run, ok, exited, undefined, ◌>>=◌, lift, Ensures, returns, exits, stuck}
pub use Outcome.{
  bind, bind_ok, mono, anyhow, ensured, ok-injective, Returns, gives, then_gives,
  Ensures-of_Returns,
}
