-- ===== src/Orchestrator/Calls.antt =====
-- What calls of ports keep, and what they return.
use ai_infrastructure_as_cod.Prelude.{◌≡◌, refl, ap, arith}
use ai_infrastructure_as_cod.Orchestrator.Ports.{
  Failure, preparation_blocked, preparation_error, lookup_error, exception, interruption, storage,
  Outcome, returned, raised, Call, pure, raise, ◌>>=◌, log_exceptions, within, and_then, after_exit,
  logged, unless_lookup, suppress_lookup,
}

-- `P` holds after the call, whether it returns or raises.
pub record Keeps {S A : Type 0} (P : S → Type 0) (m : Call S A) : Type 0 where
  pub at : (s : S) → P s → P (m s).1

-- What the call returns satisfies `R`.
pub record Gives {S A : Type 0} (m : Call S A) (R : A → Type 0) : Type 0 where
  pub at : (s : S) (a : A) → (m s).0 ≡ returned a → R a

and_then-Keeps :
    {S A B : Type 0} (P : S → Type 0) (r : Outcome A × S) (f : A → Call S B)
    → P r.1
    → ((a : A) → Keeps P (f a))
    → P (and_then r f).1
and_then-Keeps P (returned a, s) f h k = (k a).at s h
and_then-Keeps P (raised e, s) f h k = h

pub Keeps-bind :
    {S A B : Type 0} (P : S → Type 0) (m : Call S A) (f : A → Call S B)
    → Keeps P m
    → ((a : A) → Keeps P (f a))
    → Keeps P (m >>= f)
unfolding ◌>>=◌
Keeps-bind P m f h k = record { at = λ s w. and_then-Keeps P (m s) f (h.at s w) k }

pub Keeps-pure : {S A : Type 0} (P : S → Type 0) (a : A) → Keeps P (pure a)
unfolding pure
Keeps-pure P a = record { at = λ s h. h }

pub Keeps-raise : {S A : Type 0} (P : S → Type 0) (e : Failure) → Keeps {A = A} P (raise e)
unfolding raise
Keeps-raise P e = record { at = λ s h. h }

logged-Keeps : {S : Type 0} (P : S → Type 0) (r : Outcome (Unit {0}) × S) → P r.1 → P (logged r).1
logged-Keeps P (returned a, s) h = h
logged-Keeps P (raised preparation_blocked, s) h = h
logged-Keeps P (raised preparation_error, s) h = h
logged-Keeps P (raised lookup_error, s) h = h
logged-Keeps P (raised exception, s) h = h
logged-Keeps P (raised interruption, s) h = h
logged-Keeps P (raised (storage e), s) h = h

pub Keeps-log :
    {S : Type 0} (P : S → Type 0) (m : Call S (Unit {0})) → Keeps P m → Keeps P (log_exceptions m)
unfolding log_exceptions
Keeps-log P m h = record { at = λ s w. logged-Keeps P (m s) (h.at s w) }

unless_lookup-Keeps :
    {S : Type 0} (P : S → Type 0) (r : Outcome (Unit {0}) × S) → P r.1 → P (unless_lookup r).1
unless_lookup-Keeps P (returned a, s) h = h
unless_lookup-Keeps P (raised preparation_blocked, s) h = h
unless_lookup-Keeps P (raised preparation_error, s) h = h
unless_lookup-Keeps P (raised lookup_error, s) h = h
unless_lookup-Keeps P (raised exception, s) h = h
unless_lookup-Keeps P (raised interruption, s) h = h
unless_lookup-Keeps P (raised (storage e), s) h = h

pub Keeps-suppress :
    {S : Type 0} (P : S → Type 0) (m : Call S (Unit {0})) → Keeps P m → Keeps P (suppress_lookup m)
unfolding suppress_lookup
Keeps-suppress P m h = record { at = λ s w. unless_lookup-Keeps P (m s) (h.at s w) }

-- What a call that opens leaves: `Q` where it returns, `P` where it raises.
abbrev pub Opened : {S A : Type 0} → (S → Type 0) → (S → Type 0) → Outcome A × S → Type 0
Opened P Q (returned a, s) = Q s
Opened P Q (raised e, s) = P s

after_exit-Keeps :
    {S A : Type 0} (P : S → Type 0) (r : Outcome A) (x : Outcome (Unit {0}) × S)
    → P x.1
    → P (after_exit r x).1
after_exit-Keeps P r (returned a, s) h = h
after_exit-Keeps P r (raised e, s) h = h

entered-Keeps :
    {S A W : Type 0} (P Q : S → Type 0) (x : Outcome W × S) (exit : W → Call S (Unit {0}))
    (body : W → Call S A)
    → Opened P Q x
    → ((w : W) (s : S) → Q s → P (exit w s).1)
    → ((w : W) → Keeps Q (body w))
    → P (and_then x (λ w s. after_exit (body w s).0 (exit w (body w s).1))).1
entered-Keeps P Q (returned w, s) exit body h k b =
    after_exit-Keeps P (body w s).0 (exit w (body w s).1) (k w (body w s).1 ((b w).at s h))
entered-Keeps P Q (raised e, s) exit body h k b = h

-- A `with` whose exit undoes what its entry does keeps what the two keep together.
pub Keeps-within :
    {S A W : Type 0} (P Q : S → Type 0) (enter : Call S W) (exit : W → Call S (Unit {0}))
    (body : W → Call S A)
    → ((s : S) → P s → Opened P Q (enter s))
    → ((w : W) (s : S) → Q s → P (exit w s).1)
    → ((w : W) → Keeps Q (body w))
    → Keeps P (within enter exit body)
unfolding within ◌>>=◌
Keeps-within P Q enter exit body h k b = record {
  at = λ s w. entered-Keeps P Q (enter s) exit body (h s w) k b;
}

and_then-Gives :
    {S A B : Type 0} (r : Outcome A × S) (f : A → Call S B) (Q : A → Type 0) (R : B → Type 0)
    → ((a : A) → r.0 ≡ returned a → Q a)
    → ((a : A) → Q a → Gives (f a) R)
    → (b : B) → (and_then r f).0 ≡ returned b
    → R b
and_then-Gives (returned a, s) f Q R h k b e = (k a (h a refl)).at s b e
and_then-Gives (raised x, s) f Q R h k b e = ground (arith, e)

and_then-returned :
    {S A B : Type 0} (r : Outcome A × S) (f : A → Call S B) (a : A)
    → r.0 ≡ returned a
    → and_then r f ≡ f a r.1
and_then-returned (returned b, s) f a h =
    let same : b ≡ a = ground (arith, h) in ap (λ z. f z s) same
and_then-returned (raised e, s) f a h = ground (arith, h)

-- a call that follows one that returned
pub bind_returned :
    {S A B : Type 0} (m : Call S A) (f : A → Call S B) (s : S) (a : A)
    → (m s).0 ≡ returned a
    → (m >>= f) s ≡ f a (m s).1
unfolding ◌>>=◌
bind_returned m f s a h = and_then-returned (m s) f a h

pub Gives-bind :
    {S A B : Type 0} (Q : A → Type 0) (R : B → Type 0) (m : Call S A) (f : A → Call S B)
    → Gives m Q
    → ((a : A) → Q a → Gives (f a) R)
    → Gives (m >>= f) R
unfolding ◌>>=◌
Gives-bind Q R m f h k = record { at = λ s b e. and_then-Gives (m s) f Q R (h.at s) k b e }

-- where nothing is known of what the first call returns
pub Gives-after :
    {S A B : Type 0} (R : B → Type 0) (m : Call S A) (f : A → Call S B)
    → ((a : A) → Gives (f a) R)
    → Gives (m >>= f) R
Gives-after R m f k = Gives-bind (λ a. Unit {0}) R m f (record { at = λ s a e. tt }) (λ a u. k a)

pub Gives-pure : {S A : Type 0} (R : A → Type 0) (a : A) → R a → Gives (pure {S = S} a) R
unfolding pure
Gives-pure R a r = record { at = λ s b e. let same : a ≡ b = ground (arith, e) in rw (← same) r }

after_exit-Gives :
    {S A : Type 0} (r : Outcome A) (x : Outcome (Unit {0}) × S) (a : A)
    → (after_exit r x).0 ≡ returned a
    → r ≡ returned a
after_exit-Gives r (returned u, s) a e = e
after_exit-Gives r (raised u, s) a e = ground (arith, e)

pub Gives-within :
    {S A W : Type 0} (R : A → Type 0) (enter : Call S W) (exit : W → Call S (Unit {0}))
    (body : W → Call S A)
    → ((w : W) → Gives (body w) R)
    → Gives (within enter exit body) R
unfolding within
Gives-within R enter exit body k = Gives-after R enter _ (λ w. record {
  at = λ s a e. (k w).at s a (after_exit-Gives (body w s).0 (exit w (body w s).1) a e);
})

-- What the call returns satisfies `R`, with the state that it leaves.
pub record Leaves {S A : Type 0} (m : Call S A) (R : A → S → Type 0) : Type 0 where
  pub at : (s : S) (a : A) → (m s).0 ≡ returned a → R a (m s).1

and_then-Leaves :
    {S A B : Type 0} (r : Outcome A × S) (f : A → Call S B) (R : A → S → Type 0) (Q : B → Type 0)
    → ((a : A) → r.0 ≡ returned a → R a r.1)
    → ((a : A) (s : S) (b : B) → R a s → (f a s).0 ≡ returned b → Q b)
    → (b : B) → (and_then r f).0 ≡ returned b
    → Q b
and_then-Leaves (returned a, s) f R Q h k b e = k a s b (h a refl) e
and_then-Leaves (raised x, s) f R Q h k b e = ground (arith, e)

-- a call that reads the state that another has left
pub Leaves-bind :
    {S A B : Type 0} (R : A → S → Type 0) (Q : B → Type 0) (m : Call S A) (f : A → Call S B)
    → Leaves m R
    → ((a : A) (s : S) (b : B) → R a s → (f a s).0 ≡ returned b → Q b)
    → Gives (m >>= f) Q
unfolding ◌>>=◌
Leaves-bind R Q m f h k = record { at = λ s b e. and_then-Leaves (m s) f R Q (h.at s) k b e }
