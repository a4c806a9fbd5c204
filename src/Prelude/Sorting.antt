-- ===== src/Prelude/Sorting.antt =====
-- ORDER BY a text column: SQLite compares texts by their bytes, as native strings are compared.
use Prim.Native.String.{String, compare}
use mathlib.Core.Path.{◌≡◌, refl}
use mathlib.Core.Bool.{◌||◌}
use mathlib.Core.List.{List, [], ◌∷◌}
use native.Mathlib.Omega.{arith}
use text.Mathlib.Text.{is_le}
use ai_infrastructure_as_cod.Prelude.Tests.{if◌then◌else◌}
use ai_infrastructure_as_cod.Prelude.Classes.{◌==◌, string_eq, contains}

insert_text : String → List String → List String
insert_text k [] = k ∷ []
insert_text k (j ∷ js) =
    let rest = insert_text k js in if is_le (compare k j) then k ∷ j ∷ js else j ∷ rest

unfoldable pub sort_texts : List String → List String
unfolding insert_text
sort_texts [] = []
sort_texts (k ∷ ks) = insert_text k (sort_texts ks)

contains-insert_text :
    (a k : String) (ks : List String) → contains (insert_text k ks) a ≡ (a == k || contains ks a)
unfolding insert_text
contains-insert_text a k [] = refl
contains-insert_text a k (j ∷ js) = ground (arith, contains-insert_text a k js)

-- Sorting neither loses nor invents a text.
pub contains-sort_texts :
    (a : String) (ks : List String) → contains (sort_texts ks) a ≡ contains ks a
unfolding sort_texts
contains-sort_texts a [] = refl
contains-sort_texts a (k ∷ ks) =
    ground (arith, contains-insert_text a k (sort_texts ks), contains-sort_texts a ks)
