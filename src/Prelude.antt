-- ===== src/Prelude.antt =====
-- The names that the other modules share: the libraries', passed on, and those of the children.
mod Tests
mod Lists
mod Texts
mod Unicode
mod Sorting
pub use Tests.*
pub use Lists.*
unfoldable pub use Texts.{Text, Bytes, lit, text_eq, text_lt}
pub use Texts.{text_eq_refl, text_eq_iff, text_lt_irrefl, text_lt_trans, text_lt_total}
unfoldable pub use Sorting.{insert_sorted, sort_by}
pub use Sorting.{length-sort_by, In-sort_by}
unfoldable pub use Unicode.{code_points, utf8, utf8_point, split_at, is_prefix, is_hex_digit}
pub use Prim.Native.Nat.{ℕ, zero, suc, ◌+◌, ◌-◌, ◌*◌, ◌/◌, ◌%◌, ◌^◌, ◌≤◌, ◌<◌, max}
pub use mathlib.Core.Path.{◌≡◌, refl, sym, ap, ◌∙◌}
pub use mathlib.Core.Logic.{◌≢◌, ◌↔◌, ◌⊎◌, inl, inr}
pub use mathlib.Core.Bool.{Bool, true, false, ◌&&◌, ◌||◌, not}
pub use mathlib.Core.Option.{Option, none, some}
pub use mathlib.Core.List.{List, [], ◌∷◌, ◌++◌, map}
pub use native.Mathlib.Omega.{arith}
