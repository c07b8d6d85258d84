-- ===== src/Common.antt =====
-- The names that every component shares: the libraries', passed on, Boolean tests, lists over the
-- native numbers, integers for durations, and the engine's error values (lib/common/error/error.h).
mod Tests
mod Lists
mod Int
mod Sorting
mod Outcome
pub use Tests.*
pub use Lists.*
unfoldable pub use Sorting.*
pub use Int.*
pub use Outcome.*
pub use Prim.Native.Nat.{ℕ, zero, suc, ◌+◌, ◌-◌, ◌*◌, ◌/◌, ◌%◌, ◌^◌, ◌≤◌, ◌<◌, min}
pub use mathlib.Core.Path.{◌≡◌, refl, sym, ap, subst, ◌∙◌}
pub use mathlib.Core.Logic.{◌≢◌, ◌↔◌, ◌⊎◌, inl, inr}
pub use mathlib.Core.Bool.{Bool, true, false, not, ◌&&◌, ◌||◌}
pub use mathlib.Core.Option.{Option, none, some}
pub use mathlib.Core.List.{List, [], ◌∷◌, ◌++◌, map, append-nil, append_assoc}
pub use native.Mathlib.Omega.{arith}
