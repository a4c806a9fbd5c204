-- ===== src/Storage/Transaction.antt =====
-- Code that reads and writes a store and may raise: `SQLiteStore._transaction` of
-- src/macmini_ai_hub/storage/sqlite.py. What was written before a raise comes back beside the
-- error; `transaction` rolls it back.
pub mod Loops
use ai_infrastructure_as_cod.Prelude.{
  Bool, true, false, List, [], ◌∷◌, Option, none, some, ◌≡◌, refl, inl, inr, arith,
}
use ai_infrastructure_as_cod.Errors.{Error, Result, ok, err, Result-cases}

abbrev pub Tx : Type 0 → Type 0 → Type 0
Tx S A = S → Result A × S

module _ {S A : Type 0} where
  abbrev pub pure : A → Tx S A
  pure a s = (ok a, s)

  abbrev pub raise : Error → Tx S A
  raise e s = (err e, s)

  abbrev pub lift : Result A → Tx S A
  lift r s = (r, s)

  abbrev pub gets : (S → A) → Tx S A
  gets f s = (ok (f s), s)

  abbrev pub or_raise : Option A → Error → Tx S A
  or_raise none e s = (err e, s)
  or_raise (some a) e s = (ok a, s)

abbrev pub modify : {S : Type 0} → (S → S) → Tx S (Unit {0})
modify f s = (ok tt, f s)

abbrev pub raise_if : {S : Type 0} → Bool → Error → Tx S (Unit {0})
raise_if true e s = (err e, s)
raise_if false e s = (ok tt, s)

abbrev pub bind_on : {S A B : Type 0} → Result A × S → (A → Tx S B) → Result B × S
bind_on (ok a, s) f = f a s
bind_on (err e, s) f = (err e, s)

infixl 5 ◌>>=◌ ◌>>◌
abbrev pub ◌>>=◌ : {S A B : Type 0} → Tx S A → (A → Tx S B) → Tx S B
◌>>=◌ m f s = bind_on (m s) f

abbrev pub ◌>>◌ : {S A B : Type 0} → Tx S A → Tx S B → Tx S B
m >> k = m >>= λ _. k

-- BEGIN IMMEDIATE, the body, and COMMIT, or ROLLBACK where the body raises.
unfoldable pub rollback : {S A : Type 0} → Tx S A → Tx S A
rollback m s = let (r, s') = m s in elim r [ ok a ↦ (ok a, s') | err e ↦ (err e, s) ]

pub rollback-ok :
    {S A : Type 0} (m : Tx S A) (s : S) (a : A) → (rollback m s).0 ≡ ok a → rollback m s ≡ m s
unfolding rollback
rollback-ok m s a h = ground arith

pub rollback-err :
    {S A : Type 0} (m : Tx S A) (s : S) (e : Error)
    → (rollback m s).0 ≡ err e
    → (rollback m s).1 ≡ s
unfolding rollback
rollback-err m s e h = ground arith

rollback-run :
    {S A : Type 0} (m : Tx S A) (s : S) (a : A) → (m s).0 ≡ ok a → (rollback m s).1 ≡ (m s).1
unfolding rollback
rollback-run m s a h = ground arith

rollback-undo :
    {S A : Type 0} (m : Tx S A) (s : S) (e : Error) → (m s).0 ≡ err e → (rollback m s).1 ≡ s
unfolding rollback
rollback-undo m s e h = ground arith

-- From a state in `P`, wherever `m` returns, the state it leaves is in `Q`.
pub record Ensures {S A : Type 0} (P : S → Type 0) (m : Tx S A) (Q : S → Type 0) : Type 0 where
  pub at : (s : S) (a : A) → P s → (m s).0 ≡ ok a → Q (m s).1

bind_on-Ensures :
    {S A B : Type 0} (Q R : S → Type 0) (x : Result A × S) (f : A → Tx S B) (b : B)
    → ((a : A) → x.0 ≡ ok a → Q x.1)
    → ((a : A) → Ensures Q (f a) R)
    → (bind_on x f).0 ≡ ok b
    → R (bind_on x f).1
bind_on-Ensures Q R (ok a, s) f b q r h = (r a).at s b (q a refl) h
bind_on-Ensures Q R (err e, s) f b q r h = cc

module _ {S A B : Type 0} where
  pub Ensures-bind :
      (P Q R : S → Type 0) (m : Tx S A) (f : A → Tx S B)
      → Ensures P m Q
      → ((a : A) → Ensures Q (f a) R)
      → Ensures P (m >>= f) R
  Ensures-bind P Q R m f km kf = record {
    at = λ s b h e. bind_on-Ensures Q R (m s) f b (λ a q. km.at s a h q) kf e;
  }

module _ {S A : Type 0} where
  pub Ensures-pure : (P : S → Type 0) (a : A) → Ensures P (pure a) P
  Ensures-pure P a = record { at = λ s b h e. h }

  -- With a rollback, a body that keeps `P` where it returns keeps it always.
  pub rollback-Ensures :
      (P : S → Type 0) (m : Tx S A) (s : S) → Ensures P m P → P s → P (rollback m s).1
  rollback-Ensures P m s k h = elim (Result-cases (m s).0) [
    | inl (a, e) ↦ rw (rollback-run m s a e) (k.at s a h e)
    | inr (x, e) ↦ rw (rollback-undo m s x e) h
  ]

-- `P` is kept, whether the call returns or raises.
abbrev pub Keeps : {S A : Type 0} → (S → Type 0) → Tx S A → Type 0
Keeps {S} P m = (s : S) → P s → P (m s).1

module _ {S A : Type 0} where
  pub Keeps-guard :
      (P : S → Type 0) (b : Bool) (e : Error) (m : Tx S A) → Keeps P m → Keeps P (raise_if b e >> m)
  Keeps-guard P true e m k s h = h
  Keeps-guard P false e m k s h = k s h

module _ {S A B : Type 0} where
  pub Keeps-lift :
      (P : S → Type 0) (r : Result A) (f : A → Tx S B)
      → ((a : A) → r ≡ ok a → Keeps P (f a))
      → Keeps P (lift r >>= f)
  Keeps-lift P (ok a) f k s h = k a refl s h
  Keeps-lift P (err e) f k s h = h

-- for x in xs: results.append(body(x))
unfoldable pub for_each : {S A B : Type 0} → (A → Tx S B) → List A → Tx S (List B)
for_each body [] = pure []
for_each body (x ∷ xs) = let rest = for_each body xs in (do y ← body x; ys ← rest; pure (y ∷ ys))
