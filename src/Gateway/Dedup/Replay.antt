-- ===== src/Gateway/Dedup/Replay.antt =====
-- What the deduplicator remembers is replayed, and what it has reserved is refused.
use ai_infrastructure_as_cod.Prelude.{
  ℕ, zero, suc, ◌+◌, ◌-◌, ◌≤◌, true, false, String, none, some, List, [], ◌∷◌, ◌++◌, Table, lookup,
  string_eq, eq_iff, beq_refl, contains, ◌≡◌, arith, length, length-append, refl, ap, ◌∙◌,
}
use ai_infrastructure_as_cod.Gateway.Models.{GatewayResponse}
use ai_infrastructure_as_cod.Gateway.Ports.{returned}
use ai_infrastructure_as_cod.Gateway.Dedup.{
  Entry, InMemory, prune, discard, without, put_last, drop_oldest, evict, get, reserve, remember,
  release,
}

lookup-without : (k : String) (m : Table Entry) → lookup k (without k m) ≡ none
unfolding without lookup
lookup-without k [] = refl
lookup-without k ((j, e) ∷ m) = ground (arith, lookup-without k m)

lookup-drop_oldest :
    (k : String) (n : ℕ) (m : Table Entry) → lookup k m ≡ none → lookup k (drop_oldest n m) ≡ none
unfolding drop_oldest lookup
lookup-drop_oldest k zero m h = h
lookup-drop_oldest k (suc n) [] h = h
lookup-drop_oldest k (suc n) ((j, e) ∷ m) h = lookup-drop_oldest k n m (ground arith)

drop_oldest-last :
    (n : ℕ) (m : Table Entry) (k : String) (e : Entry)
    → n ≤ length m
    → drop_oldest n (m ++ (k, e) ∷ []) ≡ drop_oldest n m ++ (k, e) ∷ []
unfolding drop_oldest
drop_oldest-last zero m k e h = refl
drop_oldest-last (suc n) [] k e h = ground arith
drop_oldest-last (suc n) (r ∷ m) k e h = drop_oldest-last n m k e (omega arith)

-- the newest entry survives an eviction
evict-last :
    (max : ℕ) (k : String) (e : Entry) (m : Table Entry)
    → 1 ≤ max
    → evict max (put_last k e m)
      ≡ drop_oldest (suc (length (without k m)) - max) (without k m) ++ (k, e) ∷ []
unfolding evict put_last
evict-last max k e m h =
    ap (λ (n : ℕ). drop_oldest (n - max) (without k m ++ (k, e) ∷ [])) measured
    ∙ drop_oldest-last (suc (length (without k m)) - max) (without k m) k e (omega arith)
  where
    measured : length (without k m ++ (k, e) ∷ []) ≡ suc (length (without k m))
    measured = omega (arith, length-append (without k m) ((k, e) ∷ []))

-- and a pruning while it is fresh
lookup-prune_last :
    (now ttl : ℕ) (k : String) (e : Entry) (m : Table Entry)
    → lookup k m ≡ none
    → now ≤ e.stored_at + ttl
    → lookup k (prune now ttl (m ++ (k, e) ∷ [])) ≡ some e
unfolding prune lookup
lookup-prune_last now ttl k e [] h le = ground (arith, beq_refl k)
lookup-prune_last now ttl k e ((j, d) ∷ m) h le =
    ground (arith, lookup-prune_last now ttl k e m, lookup-last k e m)
  where
    lookup-last :
        (k : String) (e : Entry) (m : Table Entry)
        → lookup k m ≡ none
        → lookup k (m ++ (k, e) ∷ []) ≡ some e
    lookup-last k e [] h = ground (arith, beq_refl k)
    lookup-last k e ((j, d) ∷ m) h = ground (arith, lookup-last k e m)

-- A response that was remembered is returned by a `get` of the same key that comes before its time
-- to live is over, where at least one response is kept.
pub get_remembered :
    (now later : ℕ) (key : String) (r : GatewayResponse) (d : InMemory)
    → 1 ≤ d.max_entries
    → later ≤ now + d.ttl
    → (get later key (remember now key r d).1).0 ≡ returned (some r)
unfolding get remember
get_remembered now later key r d one le =
    let e : Entry = record { stored_at = now; response = r } in
    let kept =
      drop_oldest (suc (length (without key d.completed)) - d.max_entries)
        (without key d.completed) in
    ground (
      arith,
      evict-last d.max_entries key e d.completed one,
      lookup-prune_last later d.ttl key e kept
          (lookup-drop_oldest key (suc (length (without key d.completed)) - d.max_entries)
            (without key d.completed) (lookup-without key d.completed))
          le,
    )

lookup-prune-none :
    (now ttl : ℕ) (k : String) (m : Table Entry)
    → lookup k m ≡ none
    → lookup k (prune now ttl m) ≡ none
unfolding prune lookup
lookup-prune-none now ttl k [] h = refl
lookup-prune-none now ttl k ((j, e) ∷ m) h = ground (arith, lookup-prune-none now ttl k m)

contains-discard : (k : String) (js : List String) → contains (discard k js) k ≡ false
unfolding discard
contains-discard k [] = refl
contains-discard k (j ∷ js) = ground (arith, contains-discard k js, eq_iff j k, eq_iff k j)

-- A key whose reservation succeeded is refused by a second one, at any time; once it is released
-- it can be reserved again.
pub reserve_excludes :
    (now later : ℕ) (key : String) (d : InMemory)
    → (reserve now key d).0 ≡ returned true
    → ((reserve later key (reserve now key d).1).0 ≡ returned false)
      × ((reserve later key (release now key (reserve now key d).1).1).0 ≡ returned true)
unfolding reserve
reserve_excludes now later key d h = (
  ground (arith, beq_refl key),
  (unfold release in
      ground (
        arith,
        contains-discard key (key ∷ d.in_flight),
        lookup-prune-none later d.ttl key (prune now d.ttl d.completed),
      )),
)
