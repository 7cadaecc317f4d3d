-- ===== src/Base.antt =====
-- The names that the other modules share: the libraries', passed on, and those of the children.
mod Tests
mod Lists
mod Pieces
mod Words
mod Strings
mod Maps
mod Reads
mod Int
mod Digits
mod Fnv
pub use Tests.*
unfoldable pub use Lists.*
pub use Pieces.*
pub use Words.*
unfoldable pub use Strings.*
unfoldable pub use Maps.*
unfoldable pub use Reads.*
unfoldable pub use Int.*
unfoldable pub use Digits.*
unfoldable pub use Fnv.*
pub use Prim.Native.Nat.{ℕ, zero, suc, ◌+◌, ◌-◌, ◌*◌, ◌/◌, ◌%◌, ◌^◌, ◌≤◌, ◌<◌}
pub use mathlib.Core.Path.{◌≡◌, refl, sym, ap, ◌∙◌, subst}
pub use mathlib.Core.Logic.{◌≢◌, ◌↔◌, ◌⊎◌, inl, inr}
pub use mathlib.Core.Bool.{Bool, true, false, ◌&&◌, ◌||◌, not}
pub use mathlib.Core.Option.{Option, none, some}
pub use mathlib.Core.List.{List, [], ◌∷◌, ◌++◌, map}
pub use native.Mathlib.Omega.{arith}
pub use native.Mathlib.Nat.{le_refl, le_trans}
unfoldable pub use native.Mathlib.Decide.{dec_lt, ℕ_discrete}
