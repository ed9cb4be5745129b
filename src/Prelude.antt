-- ===== src/Prelude.antt =====
-- The names that the other modules share: the libraries', passed on, and those of the children.
mod Tests
mod Lists
mod Ids
mod Strings
mod Machine
mod Outcomes
mod Sorting
mod Maps
pub use Tests.*
pub use Lists.*
pub use Ids.*
pub use Strings.*
pub use Machine.*
pub use Outcomes.*
pub use Sorting.*
pub use Maps.*
unfoldable pub use Ids.{contains, extend, without, is_disjoint}
unfoldable pub use Strings.{
  text_eq, trim, split_once, contains_text, split, strip_prefix, utf8_len, starts_with, ends_with,
  any, all,
}
unfoldable pub use Sorting.{text_le, insert_by, sort_by}
unfoldable pub use Maps.{member, lookup, put, discard, collect}
unfoldable pub use Machine.{sat_add, div_ceil}
pub use Prim.Native.Nat.{ℕ, zero, suc, ◌+◌, ◌-◌, ◌*◌, ◌/◌, ◌%◌, ◌^◌, ◌≤◌, ◌<◌, min, max}
pub use Prim.Native.String.{String}
pub use mathlib.Core.Path.{◌≡◌, refl, sym, ap, ◌∙◌, subst}
pub use mathlib.Core.Logic.{◌≢◌, ◌↔◌, ◌⊎◌, inl, inr}
pub use mathlib.Core.Bool.{Bool, true, false, not, ◌&&◌, ◌||◌}
pub use mathlib.Core.Option.{Option, none, some}
pub use mathlib.Core.List.{List, [], ◌∷◌, ◌++◌, map}
pub use native.Mathlib.Omega.{arith}
pub use text.Mathlib.Text.{◌==◌ as str_eq}
pub use text.Mathlib.TextEquality.{eq_iff}
