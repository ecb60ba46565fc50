-- ===== src/Prelude.antt =====
-- The names that every other module takes: the library's, passed on, with Boolean tests, lists over
-- the native numbers and machine words.
mod Tests
mod Lists
pub mod Bits
pub use Tests.*
pub use Lists.*
pub use Prim.Native.Nat.{ℕ, zero, suc, ◌+◌, ◌-◌, ◌*◌, ◌/◌, ◌%◌, ◌^◌, ◌≤◌, ◌<◌, min, max}
pub use Prim.Native.Nat.{bit_and, bit_or}
pub use mathlib.Core.Path.{◌≡◌, refl, sym, ap, ◌∙◌, fun_ext}
pub use mathlib.Core.Logic.{◌≢◌, ◌↔◌, ◌⊎◌, inl, inr, dite}
pub use mathlib.Core.Bool.{Bool, true, false, not, ◌&&◌, ◌||◌}
pub use mathlib.Core.Option.{Option, none, some}
pub use mathlib.Core.List.{List, [], ◌∷◌, ◌++◌, map, append-nil, append_assoc}
pub use native.Mathlib.Omega.{arith}
unfoldable pub use native.Mathlib.Decide.{dec_lt, dec_le, ℕ_discrete}
