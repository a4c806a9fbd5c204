-- ===== src/Locks/Metadata.antt =====
-- `LockMetadata` of src/macmini_ai_hub/locks/file_lock.py: what a lock file holds, as JSON. The
-- pattern of identifiers, the texts of timestamps and those of integers are parameters.
pub mod Codec
use Prim.Native.String.{count}
use ai_infrastructure_as_cod.Prelude.{
  ℕ, ◌≤◌, ℤ, pos, negsuc, Bool, true, false, not, ◌&&◌, ◌||◌, String, Option, none, some, List, [],
  ◌∷◌, ◌==◌, string_eq, contains, is_some, if◌then◌else◌, leb, ltb, ◌≡◌,
}
use ai_infrastructure_as_cod.Domain.Json.{
  JsonValue, text, number, object, Fields, empty, field, get_field,
}

pub record LockMetadata : Type 0 where
  pub project : String
  pub task : String
  pub created_at : String
  pub pid : ℕ
  pub owner_token : String

-- `re`, `datetime.fromisoformat` and the integers of `json`. A timestamp is a number of microseconds.
pub record Format : Type 0 where
  pub is_lock_id : String → Bool
  pub parse_timestamp : String → Option ℕ
  pub format_timestamp : ℕ → String
  pub parse_int : String → Option ℤ
  pub print_int : ℤ → String
  pub parse-format : (n : ℕ) → parse_timestamp (format_timestamp n) ≡ some n
  pub parse-print : (z : ℤ) → parse_int (print_int z) ≡ some z

-- the fields that the object must have, and no other
abbrev pub expected : List String
expected = "created_at" ∷ "owner_token" ∷ "pid" ∷ "project" ∷ "task" ∷ []

only_expected : Fields → Bool
only_expected empty = true
only_expected (field k v fs) = contains expected k && only_expected fs

all_present : List String → Fields → Bool
all_present [] fs = true
all_present (k ∷ ks) fs = is_some (get_field k fs) && all_present ks fs

-- `set(value) != expected`, negated
unfoldable pub has_expected : Fields → Bool
unfolding only_expected all_present
has_expected fs = only_expected fs && all_present expected fs

abbrev as_text : Option JsonValue → Option String
as_text (some (text s)) = some s
as_text _ = none

module _ (f : Format) where
  -- `isinstance(pid, int)` and `pid > 0`
  positive : Option ℤ → Option ℕ
  positive (some (pos n)) = if ltb 0 n then some n else none
  positive _ = none

  as_pid : Option JsonValue → Option ℕ
  unfolding positive
  as_pid (some (number literal)) = positive (f.parse_int literal)
  as_pid _ = none

  -- the tests on the values, one after the other
  unfoldable pub is_trusted : LockMetadata → Bool
  is_trusted m =
      f.is_lock_id m.project
      && f.is_lock_id m.task
      && not (m.owner_token == "")
      && leb (count m.owner_token) 64
      && is_some (f.parse_timestamp m.created_at)

  abbrev checked : LockMetadata → Option LockMetadata
  checked m = if is_trusted m then some m else none

  abbrev built :
      Option String → Option String → Option String → Option ℕ → Option String → Option LockMetadata
  built (some project) (some task) (some created_at) (some pid) (some owner_token) =
      checked (record {
        project = project;
        task = task;
        created_at = created_at;
        pid = pid;
        owner_token = owner_token;
      })
  built _ _ _ _ _ = none

  from_fields : Fields → Option LockMetadata
  unfolding as_pid
  from_fields fs =
      if has_expected fs
      then built (as_text (get_field "project" fs)) (as_text (get_field "task" fs))
          (as_text (get_field "created_at" fs)) (as_pid (get_field "pid" fs))
          (as_text (get_field "owner_token" fs))
      else none

  -- `from_mapping`; a `ValueError` is none
  unfoldable pub from_mapping : JsonValue → Option LockMetadata
  unfolding from_fields
  from_mapping (object fs) = from_fields fs
  from_mapping _ = none

  -- json.dump(asdict(metadata), sort_keys=True)
  unfoldable pub to_json : LockMetadata → JsonValue
  to_json m = object (
      field "created_at" (text m.created_at) (
        field "owner_token" (text m.owner_token) (
          field "pid" (number (f.print_int (pos m.pid)))
            (field "project" (text m.project) (field "task" (text m.task) empty)))))
