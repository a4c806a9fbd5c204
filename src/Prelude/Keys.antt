-- ===== src/Prelude/Keys.antt =====
-- Selections and deletions by a test of the row, over tables whose keys are different.
use Prim.Native.String.{String}
use mathlib.Core.Path.{◌≡◌, refl}
use mathlib.Core.Logic.{inl, inr}
use mathlib.Core.Bool.{Bool, false}
use mathlib.Core.Option.{Option, none, some}
use mathlib.Core.List.{List, [], ◌∷◌}
use native.Mathlib.Omega.{arith}
use text.Mathlib.TextEquality.{eq_iff}
use ai_infrastructure_as_cod.Prelude.Tests.{if◌then◌else◌, Bool-cases}
use ai_infrastructure_as_cod.Prelude.Classes.{◌==◌, string_eq, contains}
use ai_infrastructure_as_cod.Prelude.Tables.{
  Table, lookup, insert, delete, lookup-insert, lookup-delete,
}

module _ {ℓ} {V : Type ℓ} where
  -- SELECT key FROM table WHERE test(row)
  unfoldable pub keys_where : (V → Bool) → Table V → List String
  keys_where test [] = []
  keys_where test ((k, v) ∷ m) = let rest = keys_where test m in if test v then k ∷ rest else rest

  -- DELETE FROM table WHERE test(row)
  unfoldable pub delete_where : (V → Bool) → Table V → Table V
  delete_where test [] = []
  delete_where test ((k, v) ∷ m) =
      let rest = delete_where test m in if test v then rest else (k, v) ∷ rest

  -- The keys of a table are different: a primary key.
  pub data HasKeys : Table V → Type ℓ where
    no_rows : HasKeys []
    row : (k : String) (v : V) {m : Table V} → lookup k m ≡ none → HasKeys m → HasKeys ((k, v) ∷ m)

  -- What a test selects of one row that may be there.
  abbrev pub selected : (V → Bool) → Option V → Bool
  selected test none = false
  selected test (some v) = test v

  abbrev pub unselected : (V → Bool) → Option V → Option V
  unselected test none = none
  unselected test (some v) = if test v then none else some v

module _ {ℓ} {V : Type ℓ} where
  pub insert-HasKeys : (k : String) (v : V) {m : Table V} → HasKeys m → HasKeys (insert k v m)
  unfolding insert lookup
  insert-HasKeys k v no_rows = row k v refl no_rows
  insert-HasKeys k v (row j w {m} n h) = elim (Bool-cases (j == k)) [
    | inl e ↦ rw e (row k v (ground (arith, eq_iff j k)) h)
    | inr e ↦ rw e (
        row j w (ground (arith, lookup-insert k j v m, eq_iff j k, eq_iff k j))
          (insert-HasKeys k v h))
  ]

  pub delete-HasKeys : (k : String) {m : Table V} → HasKeys m → HasKeys (delete k m)
  unfolding delete
  delete-HasKeys k no_rows = no_rows
  delete-HasKeys k (row j w {m} n h) = elim (Bool-cases (j == k)) [
    | inl e ↦ rw e (delete-HasKeys k h)
    | inr e ↦ rw e (row j w (ground (arith, lookup-delete k j m)) (delete-HasKeys k h))
  ]

  pub lookup-delete_where :
      (test : V → Bool) (j : String) {m : Table V}
      → HasKeys m
      → lookup j (delete_where test m) ≡ unselected test (lookup j m)
  unfolding lookup delete_where
  lookup-delete_where test j no_rows = refl
  lookup-delete_where test j (row k v n h) =
      ground (arith, lookup-delete_where test j h, lookup-delete_where test k h, eq_iff k j)

  pub delete_where-HasKeys :
      (test : V → Bool) {m : Table V} → HasKeys m → HasKeys (delete_where test m)
  unfolding delete_where
  delete_where-HasKeys test no_rows = no_rows
  delete_where-HasKeys test (row k v {m} n h) = elim (Bool-cases (test v)) [
    | inl e ↦ rw e (delete_where-HasKeys test h)
    | inr e ↦
        rw e (row k v (ground (arith, lookup-delete_where test k h)) (delete_where-HasKeys test h))
  ]

  pub contains-keys_where :
      (test : V → Bool) (j : String) {m : Table V}
      → HasKeys m
      → contains (keys_where test m) j ≡ selected test (lookup j m)
  unfolding lookup keys_where
  contains-keys_where test j no_rows = refl
  contains-keys_where test j (row k v n h) =
      ground
        (arith, contains-keys_where test j h, contains-keys_where test k h, eq_iff k j, eq_iff j k)
