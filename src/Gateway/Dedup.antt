-- ===== src/Gateway/Dedup.antt =====
-- `InMemoryRequestDeduplicator` of src/macmini_ai_hub/gateway/dedup.py. The completed responses
-- stand from the oldest to the newest, as in the `OrderedDict`; `now` is what `monotonic()` returns
-- in a call. A time is a number of ticks of the clock, which starts at 0. The lock makes each
-- operation one step.
pub mod Bounds
pub mod Replay
use ai_infrastructure_as_cod.Prelude.{
  ℕ, zero, suc, ◌+◌, ◌-◌, Bool, true, false, not, ◌||◌, String, Option, none, some, List, [], ◌∷◌,
  ◌++◌, Table, lookup, ◌==◌, string_eq, contains, is_some, if◌then◌else◌, leb, ltb, length,
}
use ai_infrastructure_as_cod.Errors.{Result, ok, err, value_error}
use ai_infrastructure_as_cod.Gateway.Models.{GatewayResponse}
use ai_infrastructure_as_cod.Gateway.Ports.{
  Outcome, returned, raised, Call, pure, RequestDeduplicator,
}

pub record Entry : Type 0 where
  pub stored_at : ℕ
  pub response : GatewayResponse

pub record InMemory : Type 0 where
  pub max_entries : ℕ
  pub ttl : ℕ
  pub completed : Table Entry
  pub in_flight : List String

-- `__init__`
unfoldable pub new : ℕ → ℕ → Result InMemory
new max_entries ttl =
    if ltb max_entries 1
    then err value_error
    else if leb ttl 0
    then err value_error
    else ok (record { max_entries = max_entries; ttl = ttl; completed = []; in_flight = [] })

unfoldable pub discard : String → List String → List String
discard k [] = []
discard k (j ∷ js) = let rest = discard k js in if j == k then rest else j ∷ rest

unfoldable pub without : String → Table Entry → Table Entry
without k [] = []
without k ((j, e) ∷ m) = let rest = without k m in if j == k then rest else (j, e) ∷ rest

-- `move_to_end`, with the entry that the key then holds
unfoldable pub put_last : String → Entry → Table Entry → Table Entry
unfolding without
put_last k e m = without k m ++ (k, e) ∷ []

-- `_prune`: from the oldest on, until an entry that is not too old; `stored_at < now - ttl` is too old
unfoldable pub prune : ℕ → ℕ → Table Entry → Table Entry
prune now ttl [] = []
prune now ttl ((k, e) ∷ m) =
    let rest = prune now ttl m in if ltb (e.stored_at + ttl) now then rest else (k, e) ∷ m

-- `popitem(last=False)`, n times
unfoldable pub drop_oldest : ℕ → Table Entry → Table Entry
drop_oldest zero m = m
drop_oldest (suc n) [] = []
drop_oldest (suc n) (r ∷ m) = drop_oldest n m

pruned : ℕ → InMemory → InMemory
unfolding prune
pruned now d = record d { completed = prune now d.ttl d.completed }

-- the end of `get`
found_in : InMemory → String → Option Entry → Outcome (Option GatewayResponse) × InMemory
unfolding put_last
found_in d key none = (returned none, d)
found_in d key (some e) =
    (returned (some e.response), record d { completed = put_last key e d.completed })

unfoldable pub get : ℕ → String → Call InMemory (Option GatewayResponse)
unfolding pruned found_in
get now key d = found_in (pruned now d) key (lookup key (pruned now d).completed)

is_taken : String → InMemory → Bool
is_taken key d = contains d.in_flight key || is_some (lookup key d.completed)

unfoldable pub reserve : ℕ → String → Call InMemory Bool
unfolding pruned is_taken
reserve now key d =
    if is_taken key (pruned now d)
    then (returned false, pruned now d)
    else (returned true, record (pruned now d) { in_flight = key ∷ (pruned now d).in_flight })

-- the newest entries, `max_entries` at most
unfoldable pub evict : ℕ → Table Entry → Table Entry
unfolding drop_oldest
evict max_entries m = drop_oldest (length m - max_entries) m

unfoldable pub remember : ℕ → String → GatewayResponse → Call InMemory (Unit {0})
unfolding discard put_last evict
remember now key response d = (
  returned tt,
  record d {
    in_flight = discard key d.in_flight;
    completed =
        evict d.max_entries
          (put_last key (record { stored_at = now; response = response }) d.completed);
  },
)

unfoldable pub release : ℕ → String → Call InMemory (Unit {0})
unfolding discard
release now key d = (returned tt, record d { in_flight = discard key d.in_flight })

-- The deduplicator in a call at a time.
abbrev pub in_memory : ℕ → RequestDeduplicator InMemory
in_memory now = record {
  get = get now;
  reserve = reserve now;
  remember = remember now;
  release = release now;
}
