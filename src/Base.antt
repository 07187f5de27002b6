-- ===== src/Base.antt =====
-- The names that the modules share: the libraries', passed on, with the tests, the lists, the
-- words and the interface of a queue that the children of this module declare.
mod Tests
mod Lists
mod Queues
mod Dicts
pub mod Int
pub use Tests.*
pub use Lists.*
pub use Dicts.{Dict, function_dict}
pub use Queues.{Fifo, front, list_fifo, pop_cases}
pub use Prim.Native.Nat.{ℕ, zero, suc, ◌+◌, ◌-◌, ◌*◌, ◌/◌, ◌%◌, ◌^◌, ◌≤◌, ◌<◌, min, max}
pub use mathlib.Core.Path.{◌≡◌, refl, sym, ap, ap₂, subst, ◌∙◌}
pub use mathlib.Core.Logic.{◌≢◌, ◌↔◌, ◌⊎◌, inl, inr}
pub use mathlib.Core.Bool.{Bool, true, false, not, ◌&&◌, ◌||◌}
pub use mathlib.Core.Option.{Option, none, some, some-injective}
pub use mathlib.Core.List.{List, [], ◌∷◌, ◌++◌, map}
pub use native.Mathlib.Omega.{arith}
