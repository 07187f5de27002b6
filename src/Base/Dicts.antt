-- ===== src/Base/Dicts.antt =====
-- The interface of a map from 64-bit keys: what the crate uses of `dashmap::DashMap`, whose calls are
-- each one atomic step.
use Prim.Native.Nat.{ℕ}
use mathlib.Core.Path.{◌≡◌, refl}
use mathlib.Core.Option.{Option, none, some}
use cl_async.Base.Tests.{◌==◌, if◌then◌else◌}

pub record Dict (V : Type 0) : Type 1 where
  pub Map : Type 0
  pub empty : Map
  pub get : Map → ℕ → Option V
  pub insert : Map → ℕ → V → Map
  pub remove : Map → ℕ → Map
  pub get-empty : (k : ℕ) → get empty k ≡ none
  pub get-insert :
      (m : Map) (k j : ℕ) (v : V) → get (insert m k v) j ≡ (if k == j then some v else get m j)
  pub get-remove : (m : Map) (k j : ℕ) → get (remove m k) j ≡ (if k == j then none else get m j)

-- Functions implement the interface.
abbrev pub function_dict : (V : Type 0) → Dict V
function_dict V = record {
  Map = ℕ → Option V;
  empty = λ _. none;
  get = λ m k. m k;
  insert = λ m k v j. if k == j then some v else m j;
  remove = λ m k j. if k == j then none else m j;
  get-empty = λ k. refl;
  get-insert = λ m k j v. refl;
  get-remove = λ m k j. refl;
}
