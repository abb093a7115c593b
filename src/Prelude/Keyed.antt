-- ===== src/Prelude/Keyed.antt =====
-- The interface of a concurrent map with `String` keys (`dashmap::DashMap<String, V>`), and the
-- association list that meets it.
use Prim.Native.Nat.{ℕ, ◌≤◌}
use Prim.Native.String.{String}
use mathlib.Core.Path.{◌≡◌, refl}
use mathlib.Core.Bool.{Bool}
use mathlib.Core.List.{List, [], ◌∷◌}
use mathlib.Core.Option.{Option, none, some}
use native.Mathlib.Omega.{arith}
use text.Mathlib.TextEquality.{eq_iff}
use armature_auth.Prelude.Tests.{str_eq, if◌then◌else◌}
use armature_auth.Prelude.Lists.{length}

-- `Option::filter`.
abbrev pub keep_if {ℓ} : {V : Type ℓ} → (V → Bool) → Option V → Option V
keep_if p none = none
keep_if p (some v) = if p v then some v else none

-- Each operation is atomic on its key, as documented; `len` is the number of entries.
pub record Table (V : Type 0) : Type 1 where
  pub Map : Type 0
  pub empty : Map
  pub get : String → Map → Option V
  pub insert : String → V → Map → Map
  pub remove : String → Map → Map
  pub retain : (V → Bool) → Map → Map
  pub len : Map → ℕ
  pub get-empty : (k : String) → get k empty ≡ none
  pub get-insert :
      (j k : String) (v : V) (m : Map)
      → get j (insert k v m) ≡ (if str_eq k j then some v else get j m)
  pub get-remove :
      (j k : String) (m : Map) → get j (remove k m) ≡ (if str_eq k j then none else get j m)
  pub get-retain : (j : String) (p : V → Bool) (m : Map) → get j (retain p m) ≡ keep_if p (get j m)
  pub len-retain : (p : V → Bool) (m : Map) → len (retain p m) ≤ len m

-- The map as an association list, the newest binding first.
module _ {V : Type 0} where
  abbrev pub assoc_get : String → List (String × V) → Option V
  assoc_get j [] = none
  assoc_get j ((k, v) ∷ m) = if str_eq k j then some v else assoc_get j m

  abbrev pub assoc_remove : String → List (String × V) → List (String × V)
  assoc_remove k [] = []
  assoc_remove k ((i, v) ∷ m) =
      let rest = assoc_remove k m in if str_eq k i then rest else (i, v) ∷ rest

  abbrev pub assoc_retain : (V → Bool) → List (String × V) → List (String × V)
  assoc_retain p [] = []
  assoc_retain p ((i, v) ∷ m) =
      let rest = assoc_retain p m in if p v then (i, v) ∷ rest else assoc_remove i rest

  pub assoc_get-remove :
      (j k : String) (m : List (String × V))
      → assoc_get j (assoc_remove k m) ≡ (if str_eq k j then none else assoc_get j m)
  assoc_get-remove j k [] = ground arith
  assoc_get-remove j k ((i, v) ∷ m) =
      ground (arith, assoc_get-remove j k m, eq_iff k i, eq_iff i j, eq_iff k j)

  pub assoc_get-retain :
      (j : String) (p : V → Bool) (m : List (String × V))
      → assoc_get j (assoc_retain p m) ≡ keep_if p (assoc_get j m)
  assoc_get-retain j p [] = refl
  assoc_get-retain j p ((i, v) ∷ m) =
      ground (arith, assoc_get-retain j p m, assoc_get-remove j i (assoc_retain p m), eq_iff i j)

  length-assoc_remove : (k : String) (m : List (String × V)) → length (assoc_remove k m) ≤ length m
  length-assoc_remove k [] = omega arith
  length-assoc_remove k ((i, v) ∷ m) = ground (arith, length-assoc_remove k m)

  pub length-assoc_retain :
      (p : V → Bool) (m : List (String × V)) → length (assoc_retain p m) ≤ length m
  length-assoc_retain p [] = omega arith
  length-assoc_retain p ((i, v) ∷ m) =
      ground (arith, length-assoc_retain p m, length-assoc_remove i (assoc_retain p m))

  pub assoc_get-insert :
      (j k : String) (v : V) (m : List (String × V))
      → assoc_get j ((k, v) ∷ assoc_remove k m) ≡ (if str_eq k j then some v else assoc_get j m)
  assoc_get-insert j k v m = ground (arith, assoc_get-remove j k m)

abbrev pub assoc : (V : Type 0) → Table V
assoc V = record {
  Map = List (String × V);
  empty = [];
  get = assoc_get;
  insert = λ k v m. (k, v) ∷ assoc_remove k m;
  remove = assoc_remove;
  retain = assoc_retain;
  len = length;
  get-empty = λ k. refl;
  get-insert = assoc_get-insert;
  get-remove = assoc_get-remove;
  get-retain = assoc_get-retain;
  len-retain = length-assoc_retain;
}
