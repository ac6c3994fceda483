-- ===== src/Prelude.antt =====
-- The names that the other modules share: the libraries', passed on, and those of the children.
mod Tests
mod Lists
mod Text
mod JsonValue
mod JsonText
mod Int
pub mod Order
pub use Int.*
pub mod Assoc
pub mod Sort
pub mod Decimal
pub use Tests.*
pub use Lists.*
unfoldable pub use JsonValue.{json_field, optional_field}
pub use JsonValue.*
unfoldable pub use JsonText.{text_host}
pub use JsonText.{parse-stringify_text}
unfoldable pub use Text.{
  is_empty, or_else, is_digit, is_space, text_length, before_comma, trim_start, trim_end, trim,
  to_decimal, text_take, text_drop, lower, upper, to_lower_case, to_upper_case, is_word, ends_word,
  after_text, text_includes,
}
pub use Text.{is_empty_iff, or_else-eq, str_neq, neq_of_test}
pub use Prim.Native.Nat.{ℕ, zero, suc, ◌+◌, ◌-◌, ◌*◌, ◌/◌, ◌%◌, ◌≤◌, ◌<◌, min, max}
pub use Prim.Native.String.{String, ◌++◌ as ◌<>◌}
pub use mathlib.Core.Path.{◌≡◌, refl, sym, ap, subst, ◌∙◌}
pub use mathlib.Core.Logic.{◌≢◌, ◌↔◌, ◌⊎◌, inl, inr}
pub use mathlib.Core.Bool.{Bool, true, false, not, ◌&&◌, ◌||◌}
pub use mathlib.Core.Option.{Option, none, some}
pub use mathlib.Core.Option.{map as map_option}
pub use mathlib.Core.List.{List, [], ◌∷◌, ◌++◌, map}
pub use native.Mathlib.Omega.{arith}
pub use text.Mathlib.Text.{◌==◌, starts_with}
pub use text.Mathlib.TextEquality.{eq_iff}
pub use text.Mathlib.TextPositions.{eq_refl}
