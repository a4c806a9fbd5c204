-- ===== src/Prelude/Listing.antt =====
-- SELECT ... WHERE test ORDER BY key LIMIT n over a table, and membership in a list.
use Prim.Native.String.{String, compare}
use Prim.Native.Nat.{ℕ, zero, suc}
use mathlib.Core.Path.{◌≡◌, refl, ap, sym, ◌∙◌}
use mathlib.Core.Logic.{◌⊎◌, inl, inr}
use mathlib.Core.Bool.{Bool, true, false}
use mathlib.Core.Option.{some}
use mathlib.Core.List.{List, [], ◌∷◌}
use native.Mathlib.Omega.{arith}
use text.Mathlib.Text.{is_le}
use text.Mathlib.TextEquality.{eq_iff}
use ai_infrastructure_as_cod.Prelude.Tests.{if◌then◌else◌, Bool-cases}
use ai_infrastructure_as_cod.Prelude.Lists.{take}
use ai_infrastructure_as_cod.Prelude.Keys.{HasKeys, no_rows, row}
use ai_infrastructure_as_cod.Prelude.Classes.{◌==◌, string_eq}
use ai_infrastructure_as_cod.Prelude.Tables.{Table, lookup}

module _ {ℓ} {V : Type ℓ} where
  unfoldable pub rows_where : (V → Bool) → Table V → List (String × V)
  rows_where test [] = []
  rows_where test ((k, v) ∷ m) =
      let rest = rows_where test m in if test v then (k, v) ∷ rest else rest

-- `before` holds of two rows that may stand in this order.
module _ {ℓ} {A : Type ℓ} (before : A → A → Bool) where
  unfoldable pub insert_by : A → List A → List A
  insert_by x [] = x ∷ []
  insert_by x (y ∷ ys) = let rest = insert_by x ys in if before x y then x ∷ y ∷ ys else y ∷ rest

  unfoldable pub order_by : List A → List A
  unfolding insert_by
  order_by [] = []
  order_by (x ∷ xs) = insert_by x (order_by xs)

-- texts as SQLite orders them: by their bytes
abbrev pub text_le : String → String → Bool
text_le a b = is_le (compare a b)

-- ORDER BY two text columns; the first may be descending
abbrev pub by_two : String × String → String × String → Bool
by_two a b = if a.0 == b.0 then text_le a.1 b.1 else text_le a.0 b.0

abbrev pub by_two_desc : String × String → String × String → Bool
by_two_desc a b = if a.0 == b.0 then text_le a.1 b.1 else text_le b.0 a.0

pub data In {ℓ} {A : Type ℓ} (x : A) : List A → Type ℓ where
  head : {xs : List A} → In x (x ∷ xs)
  tail : {y : A} {xs : List A} → In x xs → In x (y ∷ xs)

either {ℓ} :
    {A : Type ℓ} {x : A} {xs ys : List A} (b : Bool)
    → In x xs
    → In x ys
    → In x (if b then xs else ys)
either true i j = i
either false i j = j

which {ℓ κ} :
    {A : Type ℓ} {x : A} {xs ys : List A} {P : Type κ} (b : Bool)
    → (In x xs → P)
    → (In x ys → P)
    → In x (if b then xs else ys)
    → P
which true f g = f
which false f g = g

In-cons {ℓ} : {A : Type ℓ} {x y : A} {xs : List A} → (x ≡ y) ⊎ In x xs → In x (y ∷ xs)
In-cons (inl e) = rw e head
In-cons (inr i) = tail i

pub In-cases {ℓ} : {A : Type ℓ} {x y : A} {xs : List A} → In x (y ∷ xs) → (x ≡ y) ⊎ In x xs
In-cases head = inl refl
In-cases (tail i) = inr i

module _ {ℓ} {A : Type ℓ} (before : A → A → Bool) where
  In-insert_by : (x y : A) (ys : List A) → (x ≡ y) ⊎ In x ys → In x (insert_by before y ys)
  unfolding insert_by
  In-insert_by x y [] h = In-cons h
  In-insert_by x y (z ∷ zs) h = either (before y z) (In-cons h) (elim h [
    | inl e ↦ tail (In-insert_by x y zs (inl e))
    | inr i ↦ elim (In-cases i) [
      | inl e ↦ In-cons (inl e)
      | inr j ↦ tail (In-insert_by x y zs (inr j))
    ]
  ])

  insert_by-In : (x y : A) (ys : List A) → In x (insert_by before y ys) → (x ≡ y) ⊎ In x ys
  unfolding insert_by
  insert_by-In x y [] i = In-cases i
  insert_by-In x y (z ∷ zs) i =
      which (before y z) (λ i. In-cases i)
        (λ i. elim (In-cases i) [
          | inl e ↦ inr (In-cons (inl e))
          | inr j ↦ elim (insert_by-In x y zs j) [ inl e ↦ inl e | inr k ↦ inr (tail k) ]
        ])
        i

  pub In-order_by : (x : A) (xs : List A) → In x xs → In x (order_by before xs)
  unfolding order_by
  In-order_by x [] i = i
  In-order_by x (y ∷ xs) i =
      In-insert_by x y (order_by before xs)
        (elim (In-cases i) [ inl e ↦ inl e | inr j ↦ inr (In-order_by x xs j) ])

  pub order_by-In : (x : A) (xs : List A) → In x (order_by before xs) → In x xs
  unfolding order_by
  order_by-In x [] i = i
  order_by-In x (y ∷ xs) i = elim (insert_by-In x y (order_by before xs) i) [
    | inl e ↦ In-cons (inl e)
    | inr j ↦ tail (order_by-In x xs j)
  ]

pub take-In {ℓ} : {A : Type ℓ} (x : A) (n : ℕ) (xs : List A) → In x (take n xs) → In x xs
take-In x zero xs i = absurd (not_in i)
  where
    not_in : {A : Type ℓ} {x : A} → In x [] → ⊥
    not_in i = elim i [ ]
take-In x (suc n) [] i = i
take-In x (suc n) (y ∷ xs) i = elim (In-cases i) [
  | inl e ↦ In-cons (inl e)
  | inr j ↦ tail (take-In x n xs j)
]

module _ {ℓ} {V : Type ℓ} where
  -- a row that is found is selected
  pub lookup-In :
      (test : V → Bool) (k : String) (v : V) (m : Table V)
      → lookup k m ≡ some v
      → test v ≡ true
      → In (k, v) (rows_where test m)
  unfolding lookup rows_where
  lookup-In test k v [] h t = ground arith
  lookup-In test k v ((j, w) ∷ m) h t = elim (Bool-cases (j == k)) [
    | inl q ↦
        let same : v ≡ w = ground arith in
        rw (ap test (sym same) ∙ t) (In-cons (inl (pair_path (sym ((eq_iff j k).0 q)) same)))
    | inr q ↦ let i = lookup-In test k v m (ground arith) t in either (test w) (tail i) i
  ]
    where
      pair_path : {k j : String} {v w : V} → k ≡ j → v ≡ w → ◌≡◌ {A = String × V} (k, v) (j, w)
      pair_path e d = cc (e, d)

  -- and a selected row passes the test
  pub rows_where-test :
      (test : V → Bool) (r : String × V) (m : Table V) → In r (rows_where test m) → test r.1 ≡ true
  unfolding rows_where
  rows_where-test test r [] i = elim i [ ]
  rows_where-test test r ((j, w) ∷ m) i = elim (Bool-cases (test w)) [
    | inl t ↦ elim (In-cases (rw t at i)) [
      | inl e ↦ ap (λ (q : String × V). test q.1) e ∙ t
      | inr k ↦ rows_where-test test r m k
    ]
    | inr t ↦ rows_where-test test r m (rw t at i)
  ]

module _ {ℓ} {V : Type ℓ} where
  -- a selected row is found under its key
  pub rows_where-lookup :
      (test : V → Bool) (k : String) (v : V) {m : Table V}
      → HasKeys m
      → In (k, v) (rows_where test m)
      → lookup k m ≡ some v
  unfolding rows_where lookup
  rows_where-lookup test k v no_rows i = elim i [ ]
  rows_where-lookup test k v (row j w {m} n h) i = elim (Bool-cases (test w)) [
    | inl t ↦ elim (In-cases (rw t at i)) [
      | inl e ↦
          ground (arith, eq_iff j k, ap (λ (q : String × V). q.0) e, ap (λ (q : String × V). q.1) e)
      | inr i' ↦ ground (arith, rows_where-lookup test k v h i', eq_iff j k, n)
    ]
    | inr t ↦ ground (arith, rows_where-lookup test k v h (rw t at i), eq_iff j k, n)
  ]
