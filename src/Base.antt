-- ===== src/Base.antt =====
-- The names that the other modules share: the library's, passed on, and those of the children.
mod Tests
mod Lists
mod Strings
mod Split
pub mod Hosts
pub mod Words
pub mod Sort
pub mod Dict
pub mod Result
pub use Tests.*
pub use Lists.*
unfoldable pub use Strings.{
  text_discrete, text_less, to_lower, to_upper, is_space, trim_space, decimal, join, digits_from,
}
pub use Strings.{
  Text, codes, quoted, text_less-IsOrder, to_lower_idem, digits_from-decimal, all_digits, is_digit,
  decimal-digits, is_empty-decimal,
}
unfoldable pub use Split.{cut_at, split_on, split_host_port, join_host_port, fields, contains_text}
pub use Split.{starts_with, cut_at-append, cut_at-eq_some, split_on-join, IsFree}
pub use Prim.Native.Nat.{ℕ, zero, suc, ◌+◌, ◌-◌, ◌*◌, ◌/◌, ◌%◌, ◌^◌, ◌≤◌, ◌<◌}
pub use Prim.Native.String.{String}
pub use mathlib.Core.Path.{◌≡◌, refl, sym, ap, ap₂, ◌∙◌, subst}
pub use mathlib.Core.Logic.{◌≢◌, ◌↔◌, ◌⊎◌, inl, inr, ite, if_pos, if_neg}
pub use mathlib.Core.Bool.{Bool, true, false, ◌&&◌, ◌||◌, not, decide}
unfoldable pub use mathlib.Core.Bool.{Bool-discrete}
pub use mathlib.Core.Option.{Option, none, some}
pub use mathlib.Core.List.{List, [], ◌∷◌, ◌++◌, map, append-nil, append_assoc, map-append}
pub use native.Mathlib.Omega.{arith}
unfoldable pub use native.Mathlib.Decide.{dec_lt, dec_le, ℕ_discrete}
