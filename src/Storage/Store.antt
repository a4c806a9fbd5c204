-- ===== src/Storage/Store.antt =====
-- The state of `SQLiteStore`: its tables, by the columns that its queries read
-- (src/macmini_ai_hub/storage/migrations.py), and the statements that several operations share.
-- SQLite itself is taken as it is documented: primary and foreign keys are enforced, a failed
-- statement changes nothing. Busy and corrupt databases are not modelled.
use ai_infrastructure_as_cod.Prelude.{
  ℕ, Bool, true, false, String, Option, none, some, [], Table, lookup, insert, is_none, ◌≡◌, refl,
  ◌==◌, nat_eq, if◌then◌else◌,
}
use ai_infrastructure_as_cod.Errors.{Error, ok, err, storage_unavailable}
use ai_infrastructure_as_cod.Domain.Time.{Instant}
use ai_infrastructure_as_cod.Domain.Status.{TaskStatus}
use ai_infrastructure_as_cod.Storage.Models.{RunStatus, TaskRoute, DeliveryState}
use ai_infrastructure_as_cod.Storage.Transaction.{
  Tx, rollback, rollback-err, rollback-ok, Ensures, Keeps, rollback-Ensures,
}

pub record TaskRow (Doc : Type 0) : Type 0 where
  pub status : TaskStatus
  pub project : String
  pub team : String
  pub created_at : Instant
  pub updated_at : Instant
  pub version : ℕ
  pub task_json : Doc

pub record EventRow (Doc : Type 0) : Type 0 where
  pub sequence : ℕ
  pub task_id : Option String
  pub envelope_json : Doc

pub record RunRow (Doc : Type 0) : Type 0 where
  pub task_id : String
  pub created_at : Instant
  pub status : RunStatus
  pub run_json : Doc

pub record RequestRow (Doc : Type 0) : Type 0 where
  pub response_json : Option Doc
  pub created_at : Instant

pub record ArtifactRow (Doc : Type 0) : Type 0 where
  pub task_id : String
  pub created_at : Instant
  pub artifact_json : Doc

pub record DeliveryRow : Type 0 where
  pub state : DeliveryState
  pub created_at : Instant
  pub delivered_at : Option Instant

-- `last_sequence` is what AUTOINCREMENT counts on from.
pub record Store (Doc : Type 0) : Type 0 where
  pub tasks : Table (TaskRow Doc)
  pub events : Table (EventRow Doc)
  pub last_sequence : ℕ
  pub runs : Table (RunRow Doc)
  pub artifacts : Table (ArtifactRow Doc)
  pub gateway_requests : Table (RequestRow Doc)
  pub task_routes : Table TaskRoute
  pub delivery_receipts : Table DeliveryRow
  pub closed : Bool

abbrev pub empty_store : {Doc : Type 0} → Store Doc
empty_store = record {
  tasks = [];
  events = [];
  last_sequence = 0;
  runs = [];
  artifacts = [];
  gateway_requests = [];
  task_routes = [];
  delivery_receipts = [];
  closed = false;
}

-- `_ensure_open`, and then the body
unfoldable pub if_open : {S A : Type 0} → Bool → Tx S A → Tx S A
if_open true m s = (err storage_unavailable, s)
if_open false m s = m s

module _ {Doc A : Type 0} where
  -- `with self._transaction(...)`: a closed store refuses, a raise rolls everything back
  unfoldable pub transaction : Tx (Store Doc) A → Tx (Store Doc) A
  unfolding if_open rollback
  transaction m s = if_open s.closed (rollback m) s

  -- a read, outside a transaction
  unfoldable pub reading : Tx (Store Doc) A → Tx (Store Doc) A
  unfolding if_open
  reading m s = if_open s.closed m s

module _ {Doc : Type 0} where
  -- UPDATE tasks ... WHERE task_id = ? AND version = ?
  unfoldable pub update_task :
      String → ℕ → (TaskRow Doc → TaskRow Doc) → Table (TaskRow Doc) → Table (TaskRow Doc)
  update_task k v f m = elim (lookup k m) [
    | none ↦ m
    | some row ↦ if row.version == v then insert k (f row) m else m
  ]

  -- a foreign key that names no row
  abbrev pub dangling : Option String → Store Doc → Bool
  dangling none s = false
  dangling (some k) s = is_none (lookup k s.tasks)

if_open-Keeps :
    {S A : Type 0} (P : S → Type 0) (c : Bool) (m : Tx S A) → Keeps P m → Keeps P (if_open c m)
unfolding if_open
if_open-Keeps P true m k s h = h
if_open-Keeps P false m k s h = k s h

if_open-err :
    {S A : Type 0} (c : Bool) (m : Tx S A) (s : S) (e : Error)
    → (if_open c (rollback m) s).0 ≡ err e
    → (if_open c (rollback m) s).1 ≡ s
unfolding if_open
if_open-err true m s e h = refl
if_open-err false m s e h = rollback-err m s e h

if_open-ok :
    {S A : Type 0} (c : Bool) (m : Tx S A) (s : S) (a : A)
    → (if_open c (rollback m) s).0 ≡ ok a
    → if_open c (rollback m) s ≡ m s
unfolding if_open
if_open-ok true m s a h = cc
if_open-ok false m s a h = rollback-ok m s a h

module _ {Doc A : Type 0} where
  pub transaction-Keeps :
      (P : Store Doc → Type 0) (m : Tx (Store Doc) A) → Ensures P m P → Keeps P (transaction m)
  unfolding transaction
  transaction-Keeps P m k s h =
      if_open-Keeps P s.closed (rollback m) (λ t. rollback-Ensures P m t k) s h

  -- An operation that raises inside its transaction leaves the store as it was.
  pub transaction-err :
      (m : Tx (Store Doc) A) (s : Store Doc) (e : Error)
      → (transaction m s).0 ≡ err e
      → (transaction m s).1 ≡ s
  unfolding transaction
  transaction-err m s e h = if_open-err s.closed m s e h

  -- one that returns has done what its body does
  pub transaction-ok :
      (m : Tx (Store Doc) A) (s : Store Doc) (a : A)
      → (transaction m s).0 ≡ ok a
      → transaction m s ≡ m s
  unfolding transaction
  transaction-ok m s a h = if_open-ok s.closed m s a h
