-- ===== src/Storage/Recovery/Moved.antt =====
-- Tables whose rows are done or as they were.
use ai_infrastructure_as_cod.Prelude.{
  String, some, Table, lookup, insert, lookup-insert_cases, lookup-insert_self, ◌≡◌, ◌⊎◌, inl, inr,
  arith,
}

-- Each row satisfies `done` or was there before.
abbrev pub Moved : {V : Type 0} → (V → Type 0) → Table V → Table V → Type 0
Moved {V} done m m' = (k : String) (v : V) → lookup k m' ≡ some v → done v ⊎ (lookup k m ≡ some v)

-- The row of the key, if there is one, satisfies `done`.
abbrev pub Done : {V : Type 0} → (V → Type 0) → String → Table V → Type 0
Done {V} done k m = (v : V) → lookup k m ≡ some v → done v

pub insert-Moved :
    {V : Type 0} (done : V → Type 0) (m m' : Table V) (k : String) (v : V)
    → done v
    → Moved done m m'
    → Moved done m (insert k v m')
insert-Moved done m m' k v d h j w q = elim (lookup-insert_cases k j v w m' q) [
  | inl (e, e') ↦ inl (rw e' d)
  | inr old ↦ h j w old
]

pub insert-Done :
    {V : Type 0} (done : V → Type 0) (m : Table V) (j k : String) (v : V)
    → done v
    → Done done j m
    → Done done j (insert k v m)
insert-Done done m j k v d h w q = elim (lookup-insert_cases k j v w m q) [
  | inl (e, e') ↦ rw e' d
  | inr old ↦ h w old
]

pub insert-Done_self :
    {V : Type 0} (done : V → Type 0) (m : Table V) (k : String) (v : V)
    → done v
    → Done done k (insert k v m)
insert-Done_self done m k v d w q =
    let e : w ≡ v = ground (arith, q, lookup-insert_self k v m) in rw e d
