-- ===== src/Locks/FileLock.antt =====
-- `ProjectFileLock` of src/macmini_ai_hub/locks/file_lock.py, alone with its lock file: between two
-- system calls of an operation no other process changes the file. The clocks and the sleep that the
-- constructor takes are those of `Host`; a clock counts ticks. What makes and checks the lock root
-- is not modelled.
pub mod Acquire
pub mod Release
use ai_infrastructure_as_cod.Prelude.{
  ℕ, zero, suc, ◌+◌, ◌-◌, Bool, true, false, not, ◌&&◌, String, Option, none, some, ◌==◌, nat_eq,
  string_eq, if◌then◌else◌, leb, ltb,
}
use ai_infrastructure_as_cod.Domain.Json.{JsonValue}
use ai_infrastructure_as_cod.Locks.Metadata.{LockMetadata, Format, from_mapping, to_json}

-- The signature stands for device, inode, size and time of change: a new file has a new one. The
-- document is none where the file is not read or is no JSON.
pub record LockFile : Type 0 where
  pub regular : Bool
  pub signature : ℕ
  pub document : Option JsonValue

-- `monotonic` and `utc` are what the two clocks show.
pub record World : Type 0 where
  pub file : Option LockFile
  pub monotonic : ℕ
  pub utc : ℕ
  pub drawn : ℕ
  pub next_signature : ℕ

-- `token n` is the n-th `uuid4().hex` of the process. `work n` is what the clocks do during the
-- system calls of the round that draws it, and `sleep d` what they do while the lock sleeps for `d`.
pub record Host : Type 0 where
  pub own_pid : ℕ
  pub token : ℕ → String
  pub process_alive : ℕ → Bool
  pub work : ℕ → ℕ × ℕ → ℕ × ℕ
  pub sleep : ℕ → ℕ × ℕ → ℕ × ℕ

pub record ProjectFileLock : Type 0 where
  pub project_id : String
  pub task_id : String
  pub wait_timeout : ℕ
  pub poll_interval : ℕ
  pub stale_after : ℕ
  pub metadata : Option LockMetadata
  pub recovered : Option LockMetadata

pub data LockError : Type 0 where
  value_error lock_timeout lock_ownership : LockError

pub record Snapshot : Type 0 where
  pub metadata : LockMetadata
  pub signature : ℕ

-- What `_read_snapshot` does: it returns None, raises, or returns a snapshot.
pub data Reading : Type 0 where
  missing invalid : Reading
  read : Snapshot → Reading

pub record LockInspection : Type 0 where
  pub exists : Bool
  pub metadata : Option LockMetadata
  pub stale : Bool
  pub recoverable : Bool
  pub error : Bool

-- The outcome of `acquire`; `unfinished` is the loop of the model without fuel.
pub data Acquired : Type 0 where
  acquired : LockMetadata → Acquired
  refused : LockError → Acquired
  unfinished : Acquired

module _ (f : Format) where
  -- `__init__`: the durations are no negative numbers
  unfoldable pub new : String → String → ℕ → ℕ → ℕ → Option ProjectFileLock
  new project task wait poll stale =
      if f.is_lock_id project && f.is_lock_id task && ltb 0 poll
      then some (record {
        project_id = project;
        task_id = task;
        wait_timeout = wait;
        poll_interval = poll;
        stale_after = stale;
        metadata = none;
        recovered = none;
      })
      else none

  abbrev parsed : ℕ → Option JsonValue → Reading
  parsed signature none = invalid
  parsed signature (some v) = elim (from_mapping f v) [
    | none ↦ invalid
    | some m ↦ read (record { metadata = m; signature = signature })
  ]

  unfoldable pub read_snapshot : Option LockFile → Reading
  read_snapshot none = missing
  read_snapshot (some file) = if file.regular then parsed file.signature file.document else invalid

  module _ (h : Host) where
    -- `_is_stale`: old enough, and the process is absent
    unfoldable pub is_stale : ℕ → ℕ → LockMetadata → Bool
    is_stale stale_after utc m = elim (f.parse_timestamp m.created_at) [
      | none ↦ false
      | some created ↦ leb (created + stale_after) utc && not (h.process_alive m.pid)
    ]

    abbrev nothing_there : LockInspection
    nothing_there = record {
      exists = false;
      metadata = none;
      stale = false;
      recoverable = false;
      error = false;
    }

    abbrev inspected : ℕ → ℕ → Reading → LockInspection
    inspected stale_after utc missing = nothing_there
    inspected stale_after utc invalid = record nothing_there { exists = true; error = true }
    inspected stale_after utc (read s) = record {
      exists = true;
      metadata = some s.metadata;
      stale = is_stale stale_after utc s.metadata;
      recoverable = is_stale stale_after utc s.metadata;
      error = false;
    }

    unfoldable pub inspect : ProjectFileLock → World → LockInspection
    inspect lock w = inspected lock.stale_after w.utc (read_snapshot w.file)

    -- `_remove_unchanged`
    unfoldable pub remove_unchanged : Snapshot → World → Bool × World
    remove_unchanged s w = elim w.file [
      | none ↦ (false, w)
      | some file ↦
          if file.signature == s.signature then (true, record w { file = none }) else (false, w)
    ]

    -- the metadata of one round of `acquire`
    abbrev pub next_metadata : ProjectFileLock → World → LockMetadata
    next_metadata lock w = record {
      project = lock.project_id;
      task = lock.task_id;
      created_at = f.format_timestamp w.utc;
      pid = h.own_pid;
      owner_token = h.token w.drawn;
    }

    -- `_create_exclusive`, where no file is there
    abbrev pub created : LockMetadata → World → World
    created m w = record w {
      file =
          some (record {
            regular = true;
            signature = w.next_signature;
            document = some (to_json f m);
          });
      next_signature = w.next_signature + 1;
    }

    abbrev set_clocks : ℕ × ℕ → World → World
    set_clocks c w = record w { monotonic = c.0; utc = c.1 }

    -- the world after the system calls of a round
    abbrev pub drew : World → World
    drew w = record (set_clocks (h.work w.drawn (w.monotonic, w.utc)) w) { drawn = w.drawn + 1 }

    abbrev pub shorter : ℕ → ℕ → ℕ
    shorter a b = if leb a b then a else b

    abbrev pub slept : ℕ → World → World
    slept d w = set_clocks (h.sleep d (w.monotonic, w.utc)) w

    -- the second look of `acquire` at a file that may be removed
    abbrev same : LockMetadata → Option LockMetadata → Bool
    same m none = false
    same m (some n) =
        m.project == n.project
        && m.task == n.task
        && m.created_at == n.created_at
        && m.pid == n.pid
        && m.owner_token == n.owner_token

    unfoldable pub recover : LockInspection → World → Option (LockMetadata × World)
    unfolding remove_unchanged
    recover i w =
        if i.recoverable
        then elim (read_snapshot w.file) [
          | missing ↦ none
          | invalid ↦ none
          | read s ↦
              let (gone, w') = remove_unchanged s w in
              if same s.metadata i.metadata && gone then some (s.metadata, w') else none
        ]
        else none

    -- the `while True` of `acquire`
    unfoldable pub acquire_loop :
        ℕ → ℕ → ProjectFileLock → World → Acquired × ProjectFileLock × World
    acquire_loop zero deadline lock w = (unfinished, lock, w)
    acquire_loop (suc fuel) deadline lock w = elim w.file [
      | none ↦ (
        acquired (next_metadata lock w),
        record lock { metadata = some (next_metadata lock w) },
        created (next_metadata lock w) (drew w),
      )
      | some file ↦ elim (recover (inspect lock (drew w)) (drew w)) [
        | some (m, w') ↦ acquire_loop fuel deadline (record lock { recovered = some m }) w'
        | none ↦ elim (leb deadline (drew w).monotonic) [
          | true ↦ (refused lock_timeout, lock, drew w)
          | false ↦
              acquire_loop fuel deadline lock
                (slept (shorter lock.poll_interval (deadline - (drew w).monotonic)) (drew w))
        ]
      ]
    ]

    -- enough for the loop: each tick of the waiting time, a recovery, and the last round
    abbrev pub enough : ProjectFileLock → ℕ
    enough lock = suc (suc lock.wait_timeout)

    unfoldable pub acquire : ProjectFileLock → World → Acquired × ProjectFileLock × World
    acquire lock w = elim lock.metadata [
      | some m ↦ (refused lock_ownership, lock, w)
      | none ↦
          acquire_loop (enough lock) (w.monotonic + lock.wait_timeout)
            (record lock { recovered = none }) w
    ]

    -- the end of `release`, for the metadata of the owner
    abbrev removed : ProjectFileLock → Bool × World → Option LockError × ProjectFileLock × World
    removed lock (true, w) = (none, record lock { metadata = none }, w)
    removed lock (false, w) = (some lock_ownership, lock, w)

    -- `release`; the error that it raises comes first
    unfoldable pub release : ProjectFileLock → World → Option LockError × ProjectFileLock × World
    unfolding remove_unchanged
    release lock w = elim lock.metadata [
      | none ↦ (none, lock, w)
      | some owned ↦ elim (read_snapshot w.file) [
        | missing ↦ (some lock_ownership, lock, w)
        | invalid ↦ (some lock_ownership, lock, w)
        | read s ↦
            if s.metadata.owner_token == owned.owner_token
            then removed lock (remove_unchanged s w)
            else (some lock_ownership, lock, w)
      ]
    ]
