-- ===== src/Gateway/Dedup/Bounds.antt =====
-- The number of responses that are kept.
use ai_infrastructure_as_cod.Prelude.{
  ℕ, zero, suc, ◌-◌, ◌≤◌, String, some, List, [], ◌∷◌, Table, lookup, string_eq, ◌≡◌, arith, length,
  length-append, Option-cases, inl, inr, ◌<◌,
}
use ai_infrastructure_as_cod.Gateway.Models.{GatewayResponse}
use ai_infrastructure_as_cod.Gateway.Dedup.{
  Entry, InMemory, prune, without, put_last, drop_oldest, evict, get, reserve, remember, release,
}

length-drop_oldest : (n : ℕ) (m : Table Entry) → length (drop_oldest n m) ≡ length m - n
unfolding drop_oldest
length-drop_oldest zero m = omega arith
length-drop_oldest (suc n) [] = omega arith
length-drop_oldest (suc n) (r ∷ m) = omega (arith, length-drop_oldest n m)

pub evict-le : (n : ℕ) (m : Table Entry) → length (evict n m) ≤ n
unfolding evict
evict-le n m = omega (arith, length-drop_oldest (length m - n) m)

length-without : (k : String) (m : Table Entry) → length (without k m) ≤ length m
unfolding without
length-without k [] = omega arith
length-without k ((j, e) ∷ m) = ground (arith, length-without k m)

length-without_found :
    (k : String) (e : Entry) (m : Table Entry)
    → lookup k m ≡ some e
    → length (without k m) < length m
unfolding without lookup
length-without_found k e [] h = ground arith
length-without_found k e ((j, d) ∷ m) h =
    ground (arith, length-without k m, length-without_found k e m)

length-prune : (now ttl : ℕ) (m : Table Entry) → length (prune now ttl m) ≤ length m
unfolding prune
length-prune now ttl [] = omega arith
length-prune now ttl ((k, e) ∷ m) = ground (arith, length-prune now ttl m)

length-last :
    (k : String) (e : Entry) (m : Table Entry)
    → length (put_last k e m) ≡ suc (length (without k m))
unfolding put_last
length-last k e m = omega (arith, length-append (without k m) ((k, e) ∷ []))

-- No more responses than the limit.
abbrev pub IsBounded : InMemory → Type 0
IsBounded d = length d.completed ≤ d.max_entries

pub data DedupCall : Type 0 where
  looked_up : ℕ → String → DedupCall
  reserved : ℕ → String → DedupCall
  remembered : ℕ → String → GatewayResponse → DedupCall
  freed : ℕ → String → DedupCall

-- The state that a call leaves.
unfoldable pub after : DedupCall → InMemory → InMemory
after (looked_up now k) d = (get now k d).1
after (reserved now k) d = (reserve now k d).1
after (remembered now k r) d = (remember now k r d).1
after (freed now k) d = (release now k d).1

unfoldable pub after_all : List DedupCall → InMemory → InMemory
after_all [] d = d
after_all (c ∷ cs) d = after_all cs (after c d)

get-IsBounded : (now : ℕ) (k : String) (d : InMemory) → IsBounded d → IsBounded (get now k d).1
unfolding get
get-IsBounded now k d h = elim (Option-cases (lookup k (prune now d.ttl d.completed))) [
  | inl l ↦ ground (arith, length-prune now d.ttl d.completed)
  | inr (e, l) ↦ ground (
    arith,
    length-prune now d.ttl d.completed,
    length-last k e (prune now d.ttl d.completed),
    length-without_found k e (prune now d.ttl d.completed) l,
  )
]

call-IsBounded : (c : DedupCall) (d : InMemory) → IsBounded d → IsBounded (after c d)
unfolding after
call-IsBounded (looked_up now k) d h = get-IsBounded now k d h
call-IsBounded (reserved now k) d h =
    unfold reserve in ground (arith, length-prune now d.ttl d.completed)
call-IsBounded (remembered now k r) d h =
    unfold remember in
    evict-le d.max_entries (put_last k (record { stored_at = now; response = r }) d.completed)
call-IsBounded (freed now k) d h = unfold release in h

-- However the deduplicator is called, at whatever times, it never keeps more than `max_entries`
-- responses, if it did not before.
pub calls-IsBounded :
    (cs : List DedupCall) (d : InMemory) → IsBounded d → IsBounded (after_all cs d)
unfolding after_all
calls-IsBounded [] d h = h
calls-IsBounded (c ∷ cs) d h = calls-IsBounded cs (after c d) (call-IsBounded c d h)
