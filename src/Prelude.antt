-- ===== src/Prelude.antt =====
-- The names that the other modules share: the libraries', passed on, and those of the children.
mod Tests
mod Lists
mod Texts
pub mod Int
pub mod Sort
pub mod Members
pub use Tests.*
pub use Lists.{length-append, length-take, length-update_where, length-keep, count_if-append}
pub use Lists.{any-append, find-append_none, find_sound, any-eq_false_of_find, find-eq_none_of_any}
pub use Lists.{All-append, count_if-update_where, count_if-keep, count_if-le_length}
pub use Lists.{count_if-keep_not, count_if-keep_all, count_if_mono, count_if_zero_of_any}
pub use Lists.{any_of_count_if_zero, any_of_count_if_pos, any-map, find-update_where, keep_nothing}
pub use Lists.{find-keep, find-append_some, any-eq_false_at}
pub use Lists.{count_if-take, count_if-cong, count_if_pos_of_any, count_if-update_none}
pub use Lists.{
  count_if-keep_and, All-of_count, count_if-take-drop, All-take, All-drop, All-map_into,
}
pub use Lists.{count_if_never, count_if-any}
pub use Lists.{length, take, drop, All}
unfoldable pub use Lists.{find, keep, any, count_if, update_where}
pub use Texts.{Text, codes, is_empty, text_eq_sound, text_eq_refl, text_eq_iff, text_eq_comm}
pub use Texts.{read_digits-str, read_digits-append, str-injective}
unfoldable pub use Texts.{str_rounds, is_prefix, contains, text_eq, str, read_digits}
pub use Prim.Native.Nat.{ℕ, zero, suc, ◌+◌, ◌-◌, ◌*◌, ◌/◌, ◌%◌, ◌^◌, ◌≤◌, ◌<◌, min, max}
pub use mathlib.Core.Path.{◌≡◌, refl, sym, ap, ◌∙◌, subst}
pub use mathlib.Core.Logic.{◌≢◌, ◌↔◌, ◌⊎◌, inl, inr}
pub use mathlib.Core.Bool.{Bool, true, false, not, ◌&&◌, ◌||◌}
pub use mathlib.Core.Option.{Option, none, some}
pub use mathlib.Core.List.{List, [], ◌∷◌, ◌++◌, map}
pub use native.Mathlib.Omega.{arith}
