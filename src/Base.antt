-- ===== src/Base.antt =====
-- The names that the other modules share: the libraries', passed on, and those of the children.
mod Tests
mod Text
mod Classes
mod Assoc
mod Lists
mod Int
pub use Tests.*
pub use Text.{Str, codes, str_eq_iff}
unfoldable pub use Text.{str_eq, has_byte}
pub use Classes.{Eq, nat_eq, str_eq_instance, beq_refl}
unfoldable pub use Assoc.{lookup, insert, delete}
pub use Assoc.{lookup-insert, lookup-delete}
unfoldable pub use Lists.{take_at}
pub use Lists.{length, length-append, All, All-append, All-mono, All-take_at}
pub use Int.{ℤ, pos, negsuc}
pub use Prim.Native.Nat.{ℕ, zero, suc, ◌+◌, ◌-◌, ◌*◌, ◌/◌, ◌%◌, ◌^◌, ◌≤◌, ◌<◌, min}
pub use Prim.Native.String.{String}
pub use mathlib.Core.Path.{◌≡◌, refl, sym, ap, ◌∙◌}
pub use mathlib.Core.Logic.{◌≢◌, ◌↔◌, ◌⊎◌, inl, inr}
pub use mathlib.Core.Bool.{Bool, true, false, not, ◌&&◌, ◌||◌}
pub use mathlib.Core.Option.{Option, none, some}
pub use mathlib.Core.List.{List, [], ◌∷◌, ◌++◌, map}
pub use native.Mathlib.Omega.{arith}
