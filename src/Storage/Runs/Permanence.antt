-- ===== src/Storage/Runs/Permanence.antt =====
-- A run that has ended stays as it is.
use ai_infrastructure_as_cod.Prelude.{
  ℤ, true, false, String, Option, none, some, List, [], ◌∷◌, All, Table, lookup, insert,
  lookup-insert_cases, lookup-insert, ◌≡◌, ◌≢◌, ◌⊎◌, inl, inr, refl, sym, ap, ◌∙◌, arith, eq_iff,
  string_eq, Option-cases, Bool-cases,
}
use ai_infrastructure_as_cod.Errors.{ok, Result-cases}
use ai_infrastructure_as_cod.Domain.Time.{Instant, Datetime, aware_time}
use ai_infrastructure_as_cod.Storage.Models.{RunStatus, RunRecord, is_terminal, validate_lifecycle}
use ai_infrastructure_as_cod.Storage.Pydantic.{Pydantic}
use ai_infrastructure_as_cod.Storage.Store.{RunRow, Store}
use ai_infrastructure_as_cod.Storage.Runs.Lifecycle.{validate_lifecycle-eq}
use ai_infrastructure_as_cod.Storage.Runs.{
  started, finished, is_queued, run_row, update_run, create_run, start_run, finish_run,
}

-- One call of an operation that writes the table.
pub data RunCall : Type 0 where
  create : RunRecord → RunCall
  start : Instant → String → Option Datetime → RunCall
  finish : Instant → String → RunStatus → Option Datetime → Option ℤ → Option String → RunCall

-- A run that the code has built has passed the validators of its class.
abbrev pub HasValidRun : RunCall → Type 0
HasValidRun (create r) = validate_lifecycle r ≡ ok r
HasValidRun _ = Unit

module _ (p : Pydantic) where
  open p use {Doc, dump_run, load_run, load-dump_run}

  -- The store that a call leaves, whether it returns or raises.
  unfoldable pub after : RunCall → Store Doc → Store Doc
  after (create r) s = (create_run p r s).1
  after (start now id at) s = (start_run p now id at s).1
  after (finish now id status at code error) s = (finish_run p now id status at code error s).1

  unfoldable pub after_all : List RunCall → Store Doc → Store Doc
  after_all [] s = s
  after_all (c ∷ cs) s = after_all cs (after c s)

  -- Each run is stored under its id.
  abbrev pub AreKeyed : Table (RunRow Doc) → Type 0
  AreKeyed m =
      (k : String) (row : RunRow Doc) (r : RunRecord)
      → lookup k m ≡ some row
      → load_run row.run_json ≡ some r
      → r.run_id ≡ k

  -- The table has this row under the key, and its text is a run that has ended.
  pub record Ended (k : String) (row : RunRow Doc) (m : Table (RunRow Doc)) : Type 0 where
    pub run : RunRecord
    pub found : lookup k m ≡ some row
    pub reads : load_run row.run_json ≡ some run
    pub over : is_terminal run.status ≡ true

  -- What one call can do to the table.
  data RunStep (m m' : Table (RunRow Doc)) : Type 0 where
    unchanged : m' ≡ m → RunStep m m'
    added :
        (r : RunRecord)
        → validate_lifecycle r ≡ ok r
        → lookup r.run_id m ≡ none
        → m' ≡ insert r.run_id (run_row p r) m
        → RunStep m m'
    moved :
        (k : String) (row : RunRow Doc) (r u : RunRecord)
        → lookup k m ≡ some row
        → load_run row.run_json ≡ some r
        → is_terminal r.status ≡ false
        → validate_lifecycle u ≡ ok u
        → u.run_id ≡ r.run_id
        → m' ≡ update_run p u m
        → RunStep m m'

  create_step :
      (r : RunRecord) (s : Store Doc)
      → validate_lifecycle r ≡ ok r
      → RunStep s.runs (create_run p r s).1.runs
  create_step r s v = elim (Option-cases (lookup r.run_id s.runs)) [
    | inr (row, q) ↦ unchanged (unfold create_run in ground (arith, q))
    | inl q ↦ elim (Result-cases (create_run p r s).0) [
      | inr (e, h) ↦ unchanged (unfold create_run in ground (arith, q, h))
      | inl (u, h) ↦ added r v q (unfold create_run in ground (arith, q, h))
    ]
  ]

  valid_out : (r u : RunRecord) → validate_lifecycle r ≡ ok u → validate_lifecycle r ≡ ok r
  valid_out r u v = v ∙ ap ok (validate_lifecycle-eq r u v)

  queued_open : (st : RunStatus) → is_queued st ≡ true → is_terminal st ≡ false
  unfolding is_terminal
  queued_open st h = ground arith

  -- a call that returned has read a row
  row_read :
      (id : String) (s : Store Doc)
      → (lookup id s.runs ≡ none)
        ⊎ ((row : RunRow Doc) × (lookup id s.runs ≡ some row)
            × ((load_run row.run_json ≡ none)
                ⊎ ((r : RunRecord) × (load_run row.run_json ≡ some r))))
  row_read id s = elim (Option-cases (lookup id s.runs)) [
    | inl q ↦ inl q
    | inr (row, q) ↦ inr (row, q, Option-cases (load_run row.run_json))
  ]

  start_step :
      (now : Instant) (id : String) (at : Option Datetime) (s : Store Doc)
      → RunStep s.runs (start_run p now id at s).1.runs
  start_step now id at s = elim (Result-cases (aware_time now at)) [
    | inr (e, t) ↦ unchanged (unfold start_run in ground (arith, t))
    | inl (time, t) ↦ elim (row_read id s) [
      | inl q ↦ unchanged (unfold start_run in ground (arith, t, q))
      | inr (row, q, inl l) ↦ unchanged (unfold start_run in ground (arith, t, q, l))
      | inr (row, q, inr (r, l)) ↦ elim (Bool-cases (is_queued r.status)) [
        | inr n ↦ unchanged (unfold start_run in ground (arith, t, q, l, n))
        | inl n ↦ elim (Result-cases (validate_lifecycle (started r time))) [
          | inr (e, v) ↦ unchanged (unfold start_run in ground (arith, t, q, l, n, v))
          | inl (u, v) ↦
              let same = validate_lifecycle-eq (started r time) u v in
              elim (Bool-cases s.closed) [
                | inl c ↦ unchanged (unfold start_run in ground (arith, t, c))
                | inr c ↦
                    moved id row r u q l (queued_open r.status n)
                      (rw same (valid_out (started r time) u v))
                      (ap (λ (x : RunRecord). x.run_id) same ∙ (unfold started in refl))
                      (unfold start_run in ground (arith, t, q, l, n, v, c))
              ]
        ]
      ]
    ]
  ]

  finish_step :
      (now : Instant) (id : String) (st : RunStatus) (at : Option Datetime) (code : Option ℤ)
      (error : Option String) (s : Store Doc)
      → RunStep s.runs (finish_run p now id st at code error s).1.runs
  finish_step now id st at code error s = elim (Bool-cases (is_terminal st)) [
    | inr b ↦ unchanged (unfold finish_run in ground (arith, b))
    | inl b ↦ elim (Result-cases (aware_time now at)) [
      | inr (e, t) ↦ unchanged (unfold finish_run in ground (arith, b, t))
      | inl (time, t) ↦ elim (row_read id s) [
        | inl q ↦ unchanged (unfold finish_run in ground (arith, b, t, q))
        | inr (row, q, inl l) ↦ unchanged (unfold finish_run in ground (arith, b, t, q, l))
        | inr (row, q, inr (r, l)) ↦ elim (Bool-cases (is_terminal r.status)) [
          | inl n ↦ unchanged (unfold finish_run in ground (arith, b, t, q, l, n))
          | inr n ↦ elim (Result-cases (validate_lifecycle (finished r st time code error))) [
            | inr (e, v) ↦ unchanged (unfold finish_run in ground (arith, b, t, q, l, n, v))
            | inl (u, v) ↦
                let same = validate_lifecycle-eq (finished r st time code error) u v in
                elim (Bool-cases s.closed) [
                  | inl c ↦ unchanged (unfold finish_run in ground (arith, b, t, c))
                  | inr c ↦
                      moved id row r u q l n
                        (rw same (valid_out (finished r st time code error) u v))
                        (ap (λ (x : RunRecord). x.run_id) same ∙ (unfold finished in refl))
                        (unfold finish_run in ground (arith, b, t, q, l, n, v, c))
                ]
          ]
        ]
      ]
    ]
  ]

  run_step : (c : RunCall) (s : Store Doc) → HasValidRun c → RunStep s.runs (after c s).runs
  unfolding after
  run_step (create r) s v = create_step r s v
  run_step (start now id at) s v = start_step now id at s
  run_step (finish now id st at code error) s v = finish_step now id st at code error s

  insert-AreKeyed :
      (u : RunRecord) (row : RunRow Doc) (m : Table (RunRow Doc))
      → validate_lifecycle u ≡ ok u
      → row.run_json ≡ dump_run u
      → AreKeyed m
      → AreKeyed (insert u.run_id row m)
  insert-AreKeyed u row m v d keyed j w r l h = elim (lookup-insert_cases u.run_id j row w m l) [
    | inl (e, e') ↦
        let one : u ≡ r = cc (e', d, h, load-dump_run u v) in
        ap (λ (x : RunRecord). x.run_id) (sym one) ∙ sym e
    | inr old ↦ keyed j w r old h
  ]

  lookup-insert_ne :
      (i k : String) (v : RunRow Doc) (m : Table (RunRow Doc))
      → i ≢ k
      → lookup k (insert i v m) ≡ lookup k m
  lookup-insert_ne i k v m n = ground (arith, lookup-insert i k v m, eq_iff i k, n)

  update_some :
      (u : RunRecord) (old : RunRow Doc) (m : Table (RunRow Doc))
      → lookup u.run_id m ≡ some old
      → update_run p u m
        ≡ insert u.run_id (record old { status = u.status; run_json = dump_run u }) m
  update_some u old m q = unfold update_run in ground (arith, q)

  step-AreKeyed : (m m' : Table (RunRow Doc)) → RunStep m m' → AreKeyed m → AreKeyed m'
  step-AreKeyed m m' (unchanged e) keyed = rw e keyed
  step-AreKeyed m m' (added r v q e) keyed =
      rw e (insert-AreKeyed r (run_row p r) m v (unfold run_row in refl) keyed)
  step-AreKeyed m m' (moved k row r u q l n v i e) keyed =
      let place : u.run_id ≡ k = i ∙ keyed k row r q l in
      rw (e, update_some u row m (ap (λ j. lookup j m) place ∙ q))
        (insert-AreKeyed u (record row { status = u.status; run_json = dump_run u }) m v refl keyed)

  kept :
      (k : String) (row : RunRow Doc) (m m' : Table (RunRow Doc))
      → lookup k m' ≡ lookup k m
      → Ended k row m
      → Ended k row m'
  kept k row m m' e h = record { run = h.run; found = e ∙ h.found; reads = h.reads; over = h.over }

  step-Ended :
      (k : String) (row : RunRow Doc) (m m' : Table (RunRow Doc))
      → RunStep m m'
      → AreKeyed m
      → Ended k row m
      → Ended k row m'
  step-Ended k row m m' (unchanged e) keyed h = rw e h
  step-Ended k row m m' (added r v q e) keyed h =
      kept k row m m'
        (ap (lookup k) e
          ∙ lookup-insert_ne r.run_id k (run_row p r) m (λ same. cc (same, q, h.found)))
        h
  step-Ended k row m m' (moved j old r u q l n v i e) keyed h =
      let place : u.run_id ≡ j = i ∙ keyed j old r q l in
      kept k row m m'
        (ap (lookup k) (e ∙ update_some u old m (ap (λ x. lookup x m) place ∙ q))
          ∙ lookup-insert_ne u.run_id k (record old { status = u.status; run_json = dump_run u }) m
              (λ same. cc (same, place, q, l, n, h.found, h.reads, h.over)))
        h

  -- In a store whose runs are under their ids, whatever calls create, start and finish runs, one
  -- after the other, with any clocks and arguments, and whether they return or raise, the runs stay
  -- under their ids and the row of a run that has ended stays stored as it is. The runs that are
  -- created have passed the validators of their class.
  pub Ended-permanent :
      (cs : List RunCall) (s : Store Doc) (k : String) (row : RunRow Doc)
      → All HasValidRun cs
      → AreKeyed s.runs
      → Ended k row s.runs
      → AreKeyed (after_all cs s).runs × Ended k row (after_all cs s).runs
  unfolding after_all
  Ended-permanent [] s k row _ keyed h = (keyed, h)
  Ended-permanent (c ∷ cs) s k row (v, vs) keyed h =
      let step = run_step c s v in
      Ended-permanent cs (after c s) k row vs (step-AreKeyed s.runs (after c s).runs step keyed)
        (step-Ended k row s.runs (after c s).runs step keyed h)
