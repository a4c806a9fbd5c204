-- ===== src/Prelude/Tables.antt =====
-- A keyed table: the rows of an SQL table in insertion order, or a Python dict.
use Prim.Native.String.{String}
use mathlib.Core.Path.{◌≡◌, refl}
use mathlib.Core.Logic.{◌≢◌, ◌⊎◌}
use mathlib.Core.Option.{Option, none, some}
use mathlib.Core.List.{List, [], ◌∷◌}
use native.Mathlib.Omega.{arith}
use text.Mathlib.TextEquality.{eq_iff}
use ai_infrastructure_as_cod.Prelude.Tests.{if◌then◌else◌}
use ai_infrastructure_as_cod.Prelude.Classes.{◌==◌, string_eq}

abbrev pub Table {ℓ} : Type ℓ → Type ℓ
Table V = List (String × V)

module _ {ℓ} {V : Type ℓ} where
  unfoldable pub lookup : String → Table V → Option V
  lookup key [] = none
  lookup key ((k, found) ∷ rows) = if k == key then some found else lookup key rows

  -- An upsert: the row is replaced in place, or added at the end.
  unfoldable pub insert : String → V → Table V → Table V
  insert key new [] = (key, new) ∷ []
  insert key new ((k, old) ∷ rows) =
      let rest = insert key new rows in if k == key then (key, new) ∷ rows else (k, old) ∷ rest

  -- DELETE ... WHERE key = k
  unfoldable pub delete : String → Table V → Table V
  delete k [] = []
  delete k ((j, w) ∷ m) = let rest = delete k m in if j == k then rest else (j, w) ∷ rest

  pub lookup-nil : (k : String) → lookup k [] ≡ none
  unfolding lookup
  lookup-nil k = refl

  pub lookup-insert :
      (k j : String) (v : V) (m : Table V)
      → lookup j (insert k v m) ≡ (if k == j then some v else lookup j m)
  unfolding lookup insert
  lookup-insert key j new [] = refl
  lookup-insert key j new ((i, old) ∷ rows) =
      ground (arith, lookup-insert key j new rows, eq_iff i j, eq_iff i key, eq_iff key j)

  pub lookup-delete :
      (k j : String) (m : Table V) → lookup j (delete k m) ≡ (if k == j then none else lookup j m)
  unfolding lookup delete
  lookup-delete k j [] = ground arith
  lookup-delete k j ((i, w) ∷ m) =
      ground (arith, lookup-delete k j m, eq_iff i k, eq_iff i j, eq_iff k j)

module _ {ℓ} {V : Type ℓ} where
  pub lookup-insert_self : (k : String) (v : V) (m : Table V) → lookup k (insert k v m) ≡ some v
  lookup-insert_self k v m = ground (arith, lookup-insert k k v m, eq_iff k k)

  pub lookup-insert_cases :
      (k j : String) (v w : V) (m : Table V)
      → lookup j (insert k v m) ≡ some w
      → ((j ≡ k) × (w ≡ v)) ⊎ (lookup j m ≡ some w)
  lookup-insert_cases k j v w m h = ground (arith, lookup-insert k j v m, eq_iff k j)

  pub lookup-insert_ne_none :
      (k j : String) (v : V) (m : Table V) → lookup j m ≢ none → lookup j (insert k v m) ≢ none
  lookup-insert_ne_none k j v m h q = ground (arith, lookup-insert k j v m, eq_iff k j)

  pub lookup-delete_cases :
      (k j : String) (w : V) (m : Table V)
      → lookup j (delete k m) ≡ some w
      → (k ≢ j) × (lookup j m ≡ some w)
  lookup-delete_cases k j w m h = ground (arith, lookup-delete k j m, eq_iff k j)

pub ruleset table_laws = (lookup-nil, lookup-insert, lookup-delete)
