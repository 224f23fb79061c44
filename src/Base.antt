-- ===== src/Base.antt =====
-- The names that the other modules share: those of the libraries, passed on, and those of the
-- children. Nothing here models code of its own.
mod Tests
mod Lists
mod Order
mod Text
pub mod Bits
pub mod Int
pub mod Result
pub use Tests.{
  ltb, leb, ◌==◌, if◌then◌else◌, Bool-cases, Option-cases, map-eq-some, ==_iff, Bytes, beq_iff,
  beq_refl,
}
unfoldable pub use Tests.{beq}
pub use Lists.{
  length, take, drop, All, length-append, take-append-drop, length-take, length-drop,
  take-append_self, drop-append_self, All-append, All-retain, All-map,
}
unfoldable pub use Lists.{any, all, find, retain}
pub use Prim.Native.Nat.{
  ℕ, zero, suc, ◌+◌, ◌-◌, ◌*◌, ◌/◌, ◌%◌, ◌^◌, ◌≤◌, ◌<◌, min, max, bit_and, bit_or, bit_xor,
}
pub use mathlib.Core.Path.{◌≡◌, refl, sym, ap, ◌∙◌}
pub use mathlib.Core.Logic.{◌≢◌, ◌↔◌, ◌⊎◌, inl, inr}
pub use mathlib.Core.Bool.{Bool, true, false, not, ◌&&◌, ◌||◌}
pub use mathlib.Core.Option.{Option, none, some}
pub use mathlib.Core.List.{List, [], ◌∷◌, ◌++◌, map, append_assoc, append-nil}
pub use native.Mathlib.Omega.{arith}
unfoldable pub use Order.{lt_wf}
unfoldable pub use native.Mathlib.Decide.{dec_lt}
pub use Text.{text, is_empty, is_ascii_alphabetic, is_ascii_digit, is_ascii_alphanumeric}
unfoldable pub use Text.{contains, strip_prefix, strip_suffix, decimal_from, decimal}
