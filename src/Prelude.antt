-- ===== src/Prelude.antt =====
-- The names that the other modules share: the libraries', passed on, and those of three children.
mod Tests
mod Lists
mod Classes
mod Tables
mod Int
mod Keys
mod Sorting
mod Listing
pub use Tests.*
pub use Lists.*
pub use Classes.*
pub use Tables.*
unfoldable pub use Tables.{lookup, insert, delete}
pub use Int.{ℤ, pos, negsuc}
pub use Keys.*
pub use Listing.*
unfoldable pub use Listing.{rows_where, insert_by, order_by}
unfoldable pub use Keys.{keys_where, delete_where}
unfoldable pub use Sorting.{sort_texts}
pub use Sorting.{contains-sort_texts}
unfoldable pub use Int.{ℤ-discrete}
pub use Prim.Native.Nat.{ℕ, zero, suc, ◌+◌, ◌-◌, ◌*◌, ◌/◌, ◌%◌, ◌≤◌, ◌<◌}
pub use Prim.Native.String.{String}
pub use mathlib.Core.Path.{◌≡◌, refl, sym, ap, ◌∙◌}
pub use mathlib.Core.Logic.{◌≢◌, ◌↔◌, ◌⊎◌, inl, inr}
pub use mathlib.Core.Bool.{Bool, true, false, not, ◌&&◌, ◌||◌}
pub use mathlib.Core.Option.{Option, none, some}
pub use mathlib.Core.List.{List, [], ◌∷◌, ◌++◌, map}
pub use native.Mathlib.Omega.{arith}
pub use text.Mathlib.TextEquality.{eq_iff}
