-- ===== src/Base.antt =====
-- The names that every other module shares: the library's, passed on, and those of the children.
mod Tests
mod Lists
mod Bytes
mod Int
mod Results
mod Decimal
pub use Tests.{
  ltb, leb, ◌==◌, if◌then◌else◌, ltb→lt, lt→ltb, leb→le, ==_iff, Bool-cases, Option-cases,
  and_split,
}
pub use Lists.*
unfoldable pub use Bytes.{text_eq, has_prefix, trim_prefix}
pub use Bytes.{Text, codes, text_eq_iff, text_eq_refl, trim_prefix-append, has_prefix-append}
unfoldable pub use Int.{max_int, sub_nat, succ_int, distance}
pub use Int.{ℤ, pos, negsuc, pos_part, neg_part, lt_int, le_int, eq_int, eq_int_iff, le_int_total}
pub use Results.*
unfoldable pub use Decimal.{itoa, atoi}
pub use Decimal.{atoi-itoa, int_limit, itoa_bytes, itoa_not_empty}
pub use Prim.Native.Nat.{ℕ, zero, suc, ◌+◌, ◌-◌, ◌*◌, ◌/◌, ◌%◌, ◌^◌, ◌≤◌, ◌<◌, max}
pub use mathlib.Core.Path.{◌≡◌, refl, sym, ap, subst, ◌∙◌}
pub use mathlib.Core.Logic.{◌≢◌, ◌↔◌, ◌⊎◌, inl, inr}
pub use mathlib.Core.Bool.{Bool, true, false, not, ◌&&◌, ◌||◌}
pub use mathlib.Core.Option.{Option, none, some}
pub use mathlib.Core.List.{List, [], ◌∷◌, ◌++◌, map}
pub use native.Mathlib.Omega.{arith}
