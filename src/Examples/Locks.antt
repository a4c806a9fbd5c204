-- ===== src/Examples/Locks.antt =====
-- The theorems on the project locks at concrete locks.
use Prim.Native.Char.{code}
use ai_infrastructure_as_cod.Prelude.{
  ℕ, zero, suc, ◌+◌, ℤ, pos, negsuc, true, not, String, Option, none, some, ◌≡◌, ◌≢◌, ◌==◌, nat_eq,
  string_eq, refl, ap, arith, if◌then◌else◌,
}
use ai_infrastructure_as_cod.Domain.Json.{JsonValue}
use ai_infrastructure_as_cod.Locks.Metadata.{
  LockMetadata, Format, is_trusted, from_mapping, to_json,
}
use ai_infrastructure_as_cod.Locks.Metadata.Codec.{from_mapping-to_json}
use ai_infrastructure_as_cod.Locks.FileLock.{
  LockFile, World, Host, ProjectFileLock, acquired, lock_ownership, read_snapshot, Reading,
  next_metadata, acquire, release,
}
use ai_infrastructure_as_cod.Locks.FileLock.Acquire.{Ends, Ticks, acquire-Ends, held, acquire-Kept}
use ai_infrastructure_as_cod.Locks.FileLock.Release.{acquire-release}

-- numbers as texts of so many letters
abbrev stamp : ℕ → String
stamp zero = ""
stamp (suc n) = String.◌∷◌ "z" (stamp n)

abbrev letters : String → ℕ
letters String.[] = 0
letters (String.◌∷◌ c s) = suc (letters s)

letters-stamp : (n : ℕ) → letters (stamp n) ≡ n
letters-stamp zero = refl
letters-stamp (suc n) = ap suc (letters-stamp n)

abbrev print_signed : ℤ → String
print_signed (pos n) = String.◌∷◌ "p" (stamp n)
print_signed (negsuc n) = String.◌∷◌ "n" (stamp n)

abbrev parse_signed : String → Option ℤ
parse_signed String.[] = none
parse_signed (String.◌∷◌ c s) =
    if code c == 112 then some (pos (letters s)) else some (negsuc (letters s))

parse-print_signed : (z : ℤ) → parse_signed (print_signed z) ≡ some z
parse-print_signed (pos n) = ap (λ k. some (pos k)) (letters-stamp n)
parse-print_signed (negsuc n) = ap (λ k. some (negsuc k)) (letters-stamp n)

abbrev unary : Format
unary = record {
  is_lock_id = λ s. not (s == "");
  parse_timestamp = λ s. some (letters s);
  format_timestamp = stamp;
  parse_int = parse_signed;
  print_int = print_signed;
  parse-format = λ n. ap some (letters-stamp n);
  parse-print = parse-print_signed;
}

-- a machine that takes a tick for a round, and sleeps a tick too long
abbrev host : Host
host = record {
  own_pid = 7;
  token = stamp;
  process_alive = λ pid. pid == 7;
  work = λ n c. (suc c.0, suc c.1);
  sleep = λ d c. (suc (c.0 + d), suc (c.1 + d));
}

host-Ticks : Ticks host
host-Ticks = record { works = λ n c. omega arith; sleeps = λ d c. omega arith }

abbrev lock_of : String → ProjectFileLock
lock_of task = record {
  project_id = "hub";
  task_id = task;
  wait_timeout = 5;
  poll_interval = 2;
  stale_after = 10;
  metadata = none;
  recovered = none;
}

abbrev quiet : World
quiet = record { file = none; monotonic = 3; utc = 4; drawn = 1; next_signature = 0 }

abbrev held_file : LockFile
held_file = record {
  regular = true;
  signature = 9;
  document = some (
      to_json unary
        (record { project = "hub"; task = "task-1"; created_at = ""; pid = 7; owner_token = "t" }));
}

abbrev busy : World
busy = record quiet { file = some held_file }

acquire-Ends_example : Ends 7 8 busy (acquire unary host (lock_of "task-2") busy)
acquire-Ends_example = acquire-Ends unary host host-Ticks (lock_of "task-2") busy (omega arith)

held_read :
    read_snapshot unary (some held_file)
    ≡ Reading.read (record {
      metadata = record {
        project = "hub";
        task = "task-1";
        created_at = "";
        pid = 7;
        owner_token = "t";
      };
      signature = 9;
    })
unfolding read_snapshot from_mapping to_json ai_infrastructure_as_cod.Locks.Metadata.has_expected
    ai_infrastructure_as_cod.Domain.Json.get_field is_trusted
held_read = refl

acquire-Kept_example :
    ((acquire unary host (lock_of "task-2") busy).2.file ≡ some held_file)
    × ((m : LockMetadata) → (acquire unary host (lock_of "task-2") busy).0 ≢ acquired m)
acquire-Kept_example =
    acquire-Kept unary host (lock_of "task-2") busy held_file refl (held _ held_read refl)

trusted : is_trusted unary (next_metadata unary host (lock_of "task-1") quiet) ≡ true
unfolding is_trusted
trusted = refl

abbrev stranger : LockMetadata
stranger = record { project = "hub"; task = "task-2"; created_at = ""; pid = 7; owner_token = "zz" }

other_token : stranger.owner_token ≢ host.token quiet.drawn
other_token q = cc q

abbrev other_lock : ProjectFileLock
other_lock = record (lock_of "task-2") { metadata = some stranger }

acquire-release_example :
    let (r, owner, taken) = acquire unary host (lock_of "task-1") quiet in
    let mine : LockMetadata = record {
      project = "hub";
      task = "task-1";
      created_at = stamp 4;
      pid = 7;
      owner_token = "z";
    } in
    (r ≡ acquired mine)
    × (read_snapshot unary taken.file ≡ Reading.read (record { metadata = mine; signature = 0 }))
    × (release unary host other_lock taken ≡ (some lock_ownership, other_lock, taken))
    × ((release unary host owner taken).0 ≡ none)
    × ((release unary host owner taken).1.metadata ≡ none)
    × ((release unary host owner taken).2.file ≡ none)
acquire-release_example =
    acquire-release unary host (lock_of "task-1") other_lock stranger quiet refl refl trusted
      (omega arith) refl other_token

from_mapping-to_json_example : from_mapping unary (to_json unary stranger) ≡ some stranger
unfolding is_trusted
from_mapping-to_json_example = from_mapping-to_json unary stranger refl (omega arith)
