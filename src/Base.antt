-- ===== src/Base.antt =====
-- The names that the modules share: the libraries', passed on, and those of the children.
mod Tests
mod Lists
mod Keys
mod Words
mod Ring
mod Text
pub use Tests.*
pub use Lists.*
unfoldable pub use Keys.{Bytes, key_eq, Dict, lookup, assign, erase}
pub use Keys.{key_eq_iff, key_eq_refl, lookup-assign, lookup-erase}
unfoldable pub use Words.{int_bytes, int_of_bytes}
pub use Words.*
pub use Ring.*
pub use Text.{codes, is_digit, starts_digit, read_digits-decimal}
unfoldable pub use Text.{decimal, read_digits}
pub use Prim.Native.Nat.{ℕ, zero, suc, ◌+◌, ◌-◌, ◌*◌, ◌/◌, ◌%◌, ◌^◌, ◌≤◌, ◌<◌, min}
pub use mathlib.Core.Path.{◌≡◌, refl, sym, ap, ◌∙◌}
pub use mathlib.Core.Logic.{◌≢◌, ◌↔◌, ◌⊎◌, inl, inr}
pub use mathlib.Core.Bool.{Bool, true, false, not, ◌&&◌, ◌||◌}
pub use mathlib.Core.Option.{Option, none, some}
pub use mathlib.Core.List.{List, [], ◌∷◌, ◌++◌, map, append_assoc, append-nil}
pub use native.Mathlib.Nat.{le_refl}
pub use native.Mathlib.Omega.{arith}
