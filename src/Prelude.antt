-- ===== src/Prelude.antt =====
-- The names that the other modules share: the libraries', passed on, and those of the children.
mod Tests
mod Equality
mod Lists
mod Maps
mod MapLaws
mod Steps
pub use Tests.*
pub use Equality.*
pub use Lists.*
pub use Maps.*
pub use MapLaws.*
pub use Steps.*
unfoldable pub use Equality.{list_beq, int_beq}
unfoldable pub use Lists.{any, all, starts_with, contains, find}
unfoldable pub use Steps.{for_each}
unfoldable pub use Maps.{lookup, insert, erase, retain, insert_sorted, text_lt}
pub use Prim.Native.Nat.{ℕ, zero, suc, ◌+◌, ◌-◌, ◌*◌, ◌/◌, ◌%◌, ◌^◌, ◌≤◌, ◌<◌, min}
pub use mathlib.Core.Path.{◌≡◌, refl, sym, ap, subst, ◌∙◌}
pub use mathlib.Core.Logic.{◌≢◌, ◌↔◌, ◌⊎◌, inl, inr}
pub use mathlib.Core.Bool.{Bool, true, false, not, ◌&&◌, ◌||◌}
pub use mathlib.Core.Option.{Option, none, some}
pub use mathlib.Core.List.{List, [], ◌∷◌, ◌++◌, map, append_assoc, append-nil}
pub use native.Mathlib.Omega.{arith}
