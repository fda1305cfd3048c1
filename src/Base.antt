-- ===== src/Base.antt =====
-- The names that every module shares: the libraries', passed on, and those of the children:
-- tests, lists, results, integers, machine integers and texts.
mod Tests
mod Lists
mod Results
mod Int
mod Int64
mod Texts
mod Equality
mod Counter
mod Tables
mod Instants
mod Sorting
pub use Tests.*
pub use Lists.*
pub use Tables.*
pub use Instants.*
unfoldable pub use Sorting.*
pub use Results.*
unfoldable pub use Texts.*
pub use Equality.*
unfoldable pub use Counter.*
unfoldable pub use Int.*
unfoldable pub use Int64.*
pub use Prim.Native.Nat.{ℕ, zero, suc, ◌+◌, ◌-◌, ◌*◌, ◌/◌, ◌%◌, ◌^◌, ◌≤◌, ◌<◌, min, max}
pub use mathlib.Core.Path.{◌≡◌, refl, sym, ap, ap₂, subst, ◌∙◌}
pub use mathlib.Core.Logic.{◌≢◌, ◌↔◌, ◌⊎◌, inl, inr}
pub use mathlib.Core.Bool.{Bool, true, false, not, ◌&&◌, ◌||◌}
pub use mathlib.Core.Option.{Option, none, some}
pub use mathlib.Core.List.{List, [], ◌∷◌, ◌++◌, map, append-nil, append_assoc}
pub use native.Mathlib.Omega.{arith}
