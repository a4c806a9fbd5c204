-- ===== src/Storage/Tasks/Written.antt =====
-- What a successful write of a task leaves in the tables.
use ai_infrastructure_as_cod.Prelude.{
  ℕ, ◌+◌, String, none, some, lookup, insert, ◌≡◌, nat_eq, string_eq,
}
use ai_infrastructure_as_cod.Domain.Tasks.{Task}
use ai_infrastructure_as_cod.Domain.Events.{EventEnvelope}
use ai_infrastructure_as_cod.Storage.Pydantic.{Pydantic}
use ai_infrastructure_as_cod.Storage.Store.{TaskRow, EventRow, Store}
use ai_infrastructure_as_cod.Storage.Tasks.{next_row}

module _ (p : Pydantic) where
  open p use {Doc, doc_eq, dump_event, load_task}

  abbrev pub event_row : ℕ → EventEnvelope → EventRow Doc
  event_row n event = record {
    sequence = n;
    task_id = event.task_id;
    envelope_json = dump_event event;
  }

  -- The store with a task's row rewritten and an event added at the end of the log.
  abbrev pub recorded : Store Doc → String → TaskRow Doc → EventEnvelope → Store Doc
  recorded s task_id row event = record s {
    tasks = insert task_id row s.tasks;
    events = insert event.event_id (event_row (s.last_sequence + 1) event) s.events;
    last_sequence = s.last_sequence + 1;
  }

  -- The table has this row for the task, and its text reads back.
  abbrev pub Stored : Store Doc → String → TaskRow Doc → Task → Type 0
  Stored s task_id row t = (lookup task_id s.tasks ≡ some row) × (load_task row.task_json ≡ some t)

  -- What a successful write needed and what it wrote; `how` is the domain's part.
  pub record Written (How : Task → Task → Type 0) (task_id : String) (event : EventEnvelope)
      (s s' : Store Doc) (u : Task) : Type 0 where
    pub row : TaskRow Doc
    pub before : Task
    pub stored : Stored s task_id row before
    pub fresh : lookup event.event_id s.events ≡ none
    pub how : How before u
    pub after : s' ≡ recorded s task_id (next_row p u event.timestamp row) event
