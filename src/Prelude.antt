-- ===== src/Prelude.antt =====
-- The names that the other modules share: the libraries', passed on, and those of the children.
mod Tests
mod Lists
mod Chars
mod Int
mod Partial
pub mod Digits
pub mod Raising
pub use Tests.*
unfoldable pub use Lists.{any, all}
pub use Lists.{length, get_or, take, All, length-append, All-append, length-take-le, all_sound}
unfoldable pub use Chars.{
  text_eq, text_ltb, mem_text, chars_in, split_on, remove_prefix, ends_with, decimal, is_hex_digit,
  is_alnum, is_digit, is_space, is_stripped, is_hex, contains_text, strip, to_decimal, cons_head,
}
pub use Chars.{Text, codes, text_eq_iff, text_eq_refl}
pub use Partial.*
pub use Int.{ℤ, pos, negsuc}
pub use Prim.Native.Nat.{ℕ, zero, suc, ◌+◌, ◌-◌, ◌*◌, ◌/◌, ◌%◌, ◌^◌, ◌≤◌, ◌<◌}
pub use mathlib.Core.Path.{◌≡◌, refl, sym, ap, subst, ◌∙◌}
pub use mathlib.Core.Logic.{◌≢◌, ◌↔◌, ◌⊎◌, inl, inr}
pub use mathlib.Core.Bool.{Bool, true, false, ◌&&◌, ◌||◌, not}
pub use mathlib.Core.Option.{Option, none, some}
pub use mathlib.Core.List.{List, [], ◌∷◌, ◌++◌, map}
pub use native.Mathlib.Omega.{arith}
