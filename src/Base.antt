-- ===== src/Base.antt =====
-- The names that the other modules share: the libraries' passed on, and those of the children.
mod Tests
mod Lists
mod Text
mod Maps
pub mod Int
pub mod Decimal
pub mod Permutations
pub mod Runs
pub use Tests.*
pub use Lists.*
pub use Text.{
  Bytes, bytes, bytes_eq_iff, bytes_eq_sound, bytes_eq_refl, bytes_lt_irrefl, bytes_lt_trans,
  bytes_lt_total,
}
unfoldable pub use Text.{bytes_eq, bytes_lt}
pub use Maps.{Dict, lookup-insert, lookup-insert_self}
unfoldable pub use Maps.{lookup, insert}
pub use Prim.Native.Nat.{ℕ, zero, suc, ◌+◌, ◌-◌, ◌*◌, ◌/◌, ◌%◌, ◌^◌, ◌≤◌, ◌<◌, min}
pub use mathlib.Core.Path.{◌≡◌, refl, sym, ap, subst, ◌∙◌}
pub use mathlib.Core.Logic.{◌≢◌, ◌↔◌, ◌⊎◌, inl, inr}
pub use mathlib.Core.Bool.{Bool, true, false, not, ◌&&◌, ◌||◌}
pub use mathlib.Core.Option.{Option, none, some}
pub use mathlib.Core.List.{List, [], ◌∷◌, ◌++◌, map, append-nil, append_assoc}
pub use native.Mathlib.Omega.{arith}
unfoldable pub use native.Mathlib.Decide.{ℕ_discrete}
