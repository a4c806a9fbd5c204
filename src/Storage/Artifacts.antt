-- ===== src/Storage/Artifacts.antt =====
-- The artifacts of `SQLiteStore`: `create_artifact`, `get_artifact` and `list_artifacts`,
-- src/macmini_ai_hub/storage/sqlite.py.
use ai_infrastructure_as_cod.Prelude.{
  Bool, true, false, not, String, none, some, List, lookup, insert, lookup-insert_self, ◌≡◌, arith,
  is_none, is_some, rows_where, order_by, by_two, ◌==◌, string_eq,
}
use ai_infrastructure_as_cod.Errors.{
  Result, ok, err, data_integrity, duplicate_artifact, record_not_found,
}
use ai_infrastructure_as_cod.Storage.Models.{ArtifactMetadata}
use ai_infrastructure_as_cod.Storage.Pydantic.{Pydantic}
use ai_infrastructure_as_cod.Storage.Transaction.{
  Tx, pure, lift, gets, or_raise, modify, raise_if, ◌>>=◌, ◌>>◌,
}
use ai_infrastructure_as_cod.Storage.Store.{ArtifactRow, Store, transaction, reading}
use ai_infrastructure_as_cod.Storage.Listing.{decode_all}

module _ (p : Pydantic) where
  open p use {Doc, dump_artifact, load_artifact, isoformat}

  -- SELECT 1 FROM runs WHERE run_id = ? AND task_id = ?
  abbrev foreign_run : ArtifactMetadata → Store Doc → Bool
  foreign_run a s = elim a.run_id [
    | none ↦ false
    | some id ↦ elim (lookup id s.runs) [ none ↦ true | some row ↦ not (row.task_id == a.task_id) ]
  ]

  abbrev artifact_row : ArtifactMetadata → ArtifactRow Doc
  artifact_row a = record {
    task_id = a.task_id;
    created_at = a.created_at;
    artifact_json = dump_artifact a;
  }

  unfoldable pub create_artifact : ArtifactMetadata → Tx (Store Doc) ArtifactMetadata
  unfolding transaction
  create_artifact a = transaction (do
    known ← gets (λ s. lookup a.artifact_id s.artifacts)
    raise_if (is_some known) duplicate_artifact
    task ← gets (λ s. lookup a.task_id s.tasks)
    raise_if (is_none task) record_not_found
    foreign ← gets (foreign_run a)
    raise_if foreign data_integrity
    modify (λ s. record s { artifacts = insert a.artifact_id (artifact_row a) s.artifacts })
    pure a)

  unfoldable pub load_artifact_row : ArtifactRow Doc → Result ArtifactMetadata
  load_artifact_row row = elim (load_artifact row.artifact_json) [
    | none ↦ err data_integrity
    | some a ↦ ok a
  ]

  unfoldable pub get_artifact : String → Tx (Store Doc) ArtifactMetadata
  unfolding reading load_artifact_row
  get_artifact id = reading (do
    found ← gets (λ s. lookup id s.artifacts)
    row ← or_raise found record_not_found
    lift (load_artifact_row row))

  unfoldable pub list_artifacts : String → Tx (Store Doc) (List ArtifactMetadata)
  unfolding reading decode_all load_artifact_row
  list_artifacts task_id = reading (do
    rows ← gets (λ s.
        order_by
          (λ (a : String × ArtifactRow Doc) b.
            by_two (isoformat a.1.created_at, a.0) (isoformat b.1.created_at, b.0))
          (rows_where (λ (r : ArtifactRow Doc). r.task_id == task_id) s.artifacts))
    lift (decode_all (λ (r : String × ArtifactRow Doc). load_artifact_row r.1) rows))

  -- An artifact that was stored, and whose text reads back as it was, is returned under its id.
  pub get-create_artifact :
      (a b : ArtifactMetadata) (s : Store Doc)
      → load_artifact (dump_artifact a) ≡ some a
      → (create_artifact a s).0 ≡ ok b
      → (get_artifact a.artifact_id (create_artifact a s).1).0 ≡ ok a
  unfolding create_artifact get_artifact
  get-create_artifact a b s l h =
      ground (arith, l, lookup-insert_self a.artifact_id (artifact_row a) s.artifacts)
