-- ===== src/Domain/Json/Search.antt =====
-- `find_key` against the keys that a value holds at any depth.
use ai_infrastructure_as_cod.Prelude.{
  ℕ, suc, Bool, false, String, none, List, [], ◌∷◌, ◌++◌, ◌≡◌, ◌↔◌, arith, refl,
}
use ai_infrastructure_as_cod.Domain.Json.{
  JsonValue, null, boolean, number, text, array, object, Items, nil, cons, Fields, empty, field,
  JsonStep, key, index, find_key, find_in_items, find_in_fields,
}

-- No object at any depth has a key that `forbidden` rejects.
abbrev mutual
  pub IsClean : (String → Bool) → JsonValue → Type 0
  IsClean forbidden null = Unit
  IsClean forbidden (boolean b) = Unit
  IsClean forbidden (number n) = Unit
  IsClean forbidden (text s) = Unit
  IsClean forbidden (array xs) = IsCleanItems forbidden xs
  IsClean forbidden (object fs) = IsCleanFields forbidden fs

  pub IsCleanItems : (String → Bool) → Items → Type 0
  IsCleanItems forbidden nil = Unit
  IsCleanItems forbidden (cons x xs) = IsClean forbidden x × IsCleanItems forbidden xs

  pub IsCleanFields : (String → Bool) → Fields → Type 0
  IsCleanFields forbidden empty = Unit
  IsCleanFields forbidden (field k v fs) =
      (forbidden k ≡ false) × IsClean forbidden v × IsCleanFields forbidden fs

mutual
  unfolding find_key

  find_none-IsClean :
      (f : String → Bool) (v : JsonValue) (p : List JsonStep) → find_key f v p ≡ none → IsClean f v
  find_none-IsClean f null p h = tt
  find_none-IsClean f (boolean b) p h = tt
  find_none-IsClean f (number n) p h = tt
  find_none-IsClean f (text s) p h = tt
  find_none-IsClean f (array xs) p h = find_none-IsCleanItems f xs 0 p h
  find_none-IsClean f (object fs) p h = find_none-IsCleanFields f fs p h

  find_none-IsCleanItems :
      (f : String → Bool) (xs : Items) (i : ℕ) (p : List JsonStep)
      → find_in_items f xs i p ≡ none
      → IsCleanItems f xs
  find_none-IsCleanItems f nil i p h = tt
  find_none-IsCleanItems f (cons x xs) i p h = (
    find_none-IsClean f x (p ++ index i ∷ []) (ground arith),
    find_none-IsCleanItems f xs (suc i) p (ground arith),
  )

  find_none-IsCleanFields :
      (f : String → Bool) (fs : Fields) (p : List JsonStep)
      → find_in_fields f fs p ≡ none
      → IsCleanFields f fs
  find_none-IsCleanFields f empty p h = tt
  find_none-IsCleanFields f (field k v fs) p h = (
    ground arith,
    find_none-IsClean f v (p ++ key k ∷ []) (ground arith),
    find_none-IsCleanFields f fs p (ground arith),
  )

mutual
  unfolding find_key

  clean-find_none :
      (f : String → Bool) (v : JsonValue) (p : List JsonStep) → IsClean f v → find_key f v p ≡ none
  clean-find_none f null p h = refl
  clean-find_none f (boolean b) p h = refl
  clean-find_none f (number n) p h = refl
  clean-find_none f (text s) p h = refl
  clean-find_none f (array xs) p h = clean-find_none_items f xs 0 p h
  clean-find_none f (object fs) p h = clean-find_none_fields f fs p h

  clean-find_none_items :
      (f : String → Bool) (xs : Items) (i : ℕ) (p : List JsonStep)
      → IsCleanItems f xs
      → find_in_items f xs i p ≡ none
  clean-find_none_items f nil i p h = refl
  clean-find_none_items f (cons x xs) i p h =
      ground (
        arith,
        clean-find_none f x (p ++ index i ∷ []) h.0,
        clean-find_none_items f xs (suc i) p h.1,
      )

  clean-find_none_fields :
      (f : String → Bool) (fs : Fields) (p : List JsonStep)
      → IsCleanFields f fs
      → find_in_fields f fs p ≡ none
  clean-find_none_fields f empty p h = refl
  clean-find_none_fields f (field k v fs) p h =
      ground
        (arith, h.0, clean-find_none f v (p ++ key k ∷ []) h.1, clean-find_none_fields f fs p h.2)

-- For any test of keys, the search finds nothing exactly if no object, at any depth of the value,
-- has a key that the test rejects.
pub find_fields_iff :
    (f : String → Bool) (fs : Fields) (p : List JsonStep)
    → (find_in_fields f fs p ≡ none) ↔ IsCleanFields f fs
find_fields_iff f fs p = (find_none-IsCleanFields f fs p, clean-find_none_fields f fs p)
