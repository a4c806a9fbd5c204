-- ===== src/Storage/Transaction/Loops.antt =====
-- What a loop ensures: each item is done, and stays done.
use ai_infrastructure_as_cod.Prelude.{List, [], ◌∷◌, In, head, tail, In-cases, inl, inr}
use ai_infrastructure_as_cod.Storage.Transaction.{Tx, Ensures, Ensures-bind, Ensures-pure, for_each}

module _ {S A : Type 0} where
  pub Ensures-both :
      (P P' Q Q' : S → Type 0) (m : Tx S A)
      → Ensures P m Q
      → Ensures P' m Q'
      → Ensures (λ s. P s × P' s) m (λ s. Q s × Q' s)
  Ensures-both P P' Q Q' m k l = record { at = λ s a h e. (k.at s a h.0 e, l.at s a h.1 e) }

  pub Ensures-weaken :
      (P Q R : S → Type 0) (m : Tx S A) → Ensures P m Q → ((s : S) → Q s → R s) → Ensures P m R
  Ensures-weaken P Q R m k w = record { at = λ s a h e. w (m s).1 (k.at s a h e) }

module _ {S A B : Type 0} (body : A → Tx S B) where
  -- an invariant of the body is one of the loop
  pub for_each-Ensures :
      (P : S → Type 0) (xs : List A)
      → ((x : A) → In x xs → Ensures P (body x) P)
      → Ensures P (for_each body xs) P
  unfolding for_each
  for_each-Ensures P [] h = Ensures-pure P []
  for_each-Ensures P (x ∷ xs) h = Ensures-bind P P P (body x) _ (h x head) (λ y.
      Ensures-bind P P P (for_each body xs) _ (for_each-Ensures P xs (λ z i. h z (tail i)))
        (λ ys. Ensures-pure P (y ∷ ys)))

  -- the loop does what the body does for each item, where no other item undoes it
  pub for_each-done :
      (P : S → Type 0) (Done : A → S → Type 0) (xs : List A)
      → ((x : A) → In x xs → Ensures P (body x) (λ s. P s × Done x s))
      → ((x y : A) → In x xs → Ensures (λ s. P s × Done y s) (body x) (λ s. P s × Done y s))
      → Ensures P (for_each body xs) (λ s. P s × ((x : A) → In x xs → Done x s))
  unfolding for_each
  for_each-done P Done [] h stay = record { at = λ s a p e. (p, λ x i. elim i [ ]) }
  for_each-done P Done (x ∷ xs) h stay =
      Ensures-bind P (λ s. P s × Done x s) _ (body x) _ (h x head)
        (λ y.
          Ensures-bind _ _ _ (for_each body xs) _
            (all_done x xs (for_each-Ensures (λ s. P s × Done x s) xs (λ z i. stay z x (tail i)))
              (for_each-done P Done xs (λ z i. h z (tail i)) (λ z w i. stay z w (tail i))))
            (λ ys. Ensures-pure _ (y ∷ ys)))
    where
      all_done :
          (x : A) (xs : List A)
          → Ensures (λ s. P s × Done x s) (for_each body xs) (λ s. P s × Done x s)
          → Ensures P (for_each body xs) (λ s. P s × ((z : A) → In z xs → Done z s))
          → Ensures
              (λ s. P s × Done x s)
              (for_each body xs)
              (λ s. P s × ((z : A) → In z (x ∷ xs) → Done z s))
      all_done x xs k l = record {
        at = λ s a p e.
            let one = k.at s a p e in
            let all = l.at s a p.0 e in
            (one.0, λ z i. elim (In-cases i) [ inl q ↦ rw q one.1 | inr j ↦ all.1 z j ]);
      }
