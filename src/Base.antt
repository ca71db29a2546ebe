-- ===== src/Base.antt =====
-- The names that the other modules share: the libraries' names, Boolean tests, Go's text functions,
-- fallible results and association lists for Go maps.
mod Tests
mod Text
mod Parse
mod FilePath
pub mod Integer
mod Assoc
mod Lists
pub use Tests.*
unfoldable pub use Assoc.{lookup, insert}
pub use Assoc.{lookup-nil, lookup-insert}
pub use Lists.*
pub use Text.{ne_of_test, sprint-ne-empty, sprint-ne-of_prefix}
unfoldable pub use Text.{
  sprint, split_from, split, cut, has_prefix, has_suffix, trim_suffix, is_space, fields_from,
  fields, sprintf_d, decimal, digit, trim_quotes, drop_quotes, is_hex32, all_hex, cut_prefix,
  contains_char,
}
unfoldable pub use Parse.{contains, after_last, trim_space, parse_saturated, parse_int}
unfoldable pub use FilePath.{join, is_abs, clean, join_path, dir_of, sort_texts, insert_text}
pub use Prim.Native.Nat.{ℕ, zero, suc, ◌+◌, ◌-◌, ◌*◌, ◌/◌, ◌%◌, ◌^◌, ◌≤◌, ◌<◌, min, max}
pub use Prim.Native.String.{String}
pub use mathlib.Core.Path.{◌≡◌, refl, sym, ap, subst, ◌∙◌, fun_ext}
pub use mathlib.Core.Logic.{◌≢◌, ◌↔◌, ◌⊎◌, inl, inr}
pub use mathlib.Core.Bool.{Bool, true, false, not, ◌&&◌, ◌||◌}
pub use mathlib.Core.Option.{Option, none, some}
pub use mathlib.Core.List.{List, [], ◌∷◌, ◌++◌, map, reverse, append_assoc, append-nil}
pub use native.Mathlib.Omega.{arith}
pub use text.Mathlib.TextEquality.{eq_iff}
pub use text.Mathlib.TextPositions.{eq_refl}
