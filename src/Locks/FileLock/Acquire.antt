-- ===== src/Locks/FileLock/Acquire.antt =====
-- `acquire`: it ends in time, and takes over a lock only from an absent process.
use ai_infrastructure_as_cod.Prelude.{
  ℕ, zero, suc, ◌+◌, ◌-◌, ◌≤◌, ◌<◌, true, none, some, ◌≡◌, ◌≢◌, inl, inr, sym, ap, ◌∙◌, arith,
  Option-cases, Bool-cases, leb,
}
use mathlib.Core.Path.{subst}
use ai_infrastructure_as_cod.Locks.Metadata.{LockMetadata, Format}
use ai_infrastructure_as_cod.Locks.FileLock.{
  LockFile, World, Host, ProjectFileLock, lock_timeout, lock_ownership, Snapshot, Reading,
  LockInspection, Acquired, acquired, refused, unfinished, read_snapshot, is_stale, inspect,
  recover, next_metadata, created, drew, slept, shorter, acquire_loop, enough, acquire,
}

-- A loop from `w` that has ended after `n` rounds at most, and not before the deadline if it gave up.
pub record Ends (n deadline : ℕ) (w : World) (r : Acquired × ProjectFileLock × World) : Type 0 where
  pub returned : r.0 ≢ unfinished
  pub rounds : r.2.drawn ≤ w.drawn + n
  pub patient : r.0 ≡ refused lock_timeout → deadline ≤ r.2.monotonic

-- The monotonic clock does not go back, and a sleep lasts as long as it should at least.
pub record Ticks (h : Host) : Type 0 where
  pub works : (n : ℕ) (c : ℕ × ℕ) → c.0 ≤ (h.work n c).0
  pub sleeps : (d : ℕ) (c : ℕ × ℕ) → c.0 + d ≤ (h.sleep d c).0

module _ (f : Format) (h : Host) where
  recover-absent :
      (i : LockInspection) (w w' : World) (m : LockMetadata)
      → recover f h i w ≡ some (m, w')
      → (w'.file ≡ none) × (w'.drawn ≡ w.drawn)
  unfolding recover
  recover-absent i w w' m q = ground arith

  pub loop-absent :
      (fuel deadline : ℕ) (lock : ProjectFileLock) (w : World)
      → w.file ≡ none
      → acquire_loop f h (suc fuel) deadline lock w ≡ (
        acquired (next_metadata f h lock w),
        record lock { metadata = some (next_metadata f h lock w) },
        created f h (next_metadata f h lock w) (drew f h w),
      )
  unfolding acquire_loop
  loop-absent fuel deadline lock w q = ground (arith, q)

  absent-Ends :
      (fuel n deadline : ℕ) (lock : ProjectFileLock) (w : World)
      → w.file ≡ none
      → 1 ≤ n
      → Ends n deadline w (acquire_loop f h (suc fuel) deadline lock w)
  absent-Ends fuel n deadline lock w q le =
      rw (loop-absent fuel deadline lock w q)
        (record { returned = λ e. cc e; rounds = omega arith; patient = λ e. cc e })

  -- a later start of fewer rounds
  earlier :
      (n k deadline : ℕ) (w v : World) (r : Acquired × ProjectFileLock × World)
      → v.drawn + k ≤ w.drawn + n
      → Ends k deadline v r
      → Ends n deadline w r
  earlier n k deadline w v r le t = record {
    returned = t.returned;
    rounds = omega (arith, t.rounds, le);
    patient = t.patient;
  }

  loop-recovered :
      (fuel deadline : ℕ) (lock : ProjectFileLock) (w w' : World) (file : LockFile)
      (m : LockMetadata)
      → w.file ≡ some file
      → recover f h (inspect f h lock (drew f h w)) (drew f h w) ≡ some (m, w')
      → acquire_loop f h (suc fuel) deadline lock w
        ≡ acquire_loop f h fuel deadline (record lock { recovered = some m }) w'
  unfolding acquire_loop
  loop-recovered fuel deadline lock w w' file m q r = ground (arith, q, r)

  loop-late :
      (fuel deadline : ℕ) (lock : ProjectFileLock) (w : World) (file : LockFile)
      → w.file ≡ some file
      → recover f h (inspect f h lock (drew f h w)) (drew f h w) ≡ none
      → deadline ≤ (drew f h w).monotonic
      → acquire_loop f h (suc fuel) deadline lock w ≡ (refused lock_timeout, lock, drew f h w)
  unfolding acquire_loop
  loop-late fuel deadline lock w file q r le = ground (arith, q, r)

  abbrev waited : ℕ → ProjectFileLock → World → World
  waited deadline lock w =
      slept f h (shorter f h lock.poll_interval (deadline - (drew f h w).monotonic)) (drew f h w)

  loop-waiting :
      (fuel deadline : ℕ) (lock : ProjectFileLock) (w : World) (file : LockFile)
      → w.file ≡ some file
      → recover f h (inspect f h lock (drew f h w)) (drew f h w) ≡ none
      → (drew f h w).monotonic < deadline
      → acquire_loop f h (suc fuel) deadline lock w
        ≡ acquire_loop f h fuel deadline lock (waited deadline lock w)
  unfolding acquire_loop
  loop-waiting fuel deadline lock w file q r le = ground (arith, q, r)

  -- one round, given what the next one does after a sleep
  round-Ends :
      (n deadline : ℕ) (lock : ProjectFileLock) (w : World)
      → ((drew f h w).monotonic < deadline
          → Ends
              (suc n)
              deadline
              (waited deadline lock w)
              (acquire_loop f h (suc n) deadline lock (waited deadline lock w)))
      → Ends (suc (suc n)) deadline w (acquire_loop f h (suc (suc n)) deadline lock w)
  round-Ends n deadline lock w next = elim (Option-cases w.file) [
    | inl q ↦ absent-Ends (suc n) (suc (suc n)) deadline lock w q (omega arith)
    | inr (file, q) ↦
        elim (Option-cases (recover f h (inspect f h lock (drew f h w)) (drew f h w))) [
          | inr ((m, w'), r) ↦
              let gone = recover-absent (inspect f h lock (drew f h w)) (drew f h w) w' m r in
              rw (loop-recovered (suc n) deadline lock w w' file m q r) (
                earlier (suc (suc n)) (suc n) deadline w w' _ (omega (arith, gone.1)) (
                  absent-Ends n (suc n) deadline (record lock { recovered = some m }) w' gone.0
                    (omega arith)))
          | inl r ↦ elim (Bool-cases (leb deadline (drew f h w).monotonic)) [
            | inl t ↦
                rw (loop-late (suc n) deadline lock w file q r (ground arith)) (record {
                  returned = λ e. cc e;
                  rounds = omega arith;
                  patient = λ e. ground arith;
                })
            | inr t ↦ rw (loop-waiting (suc n) deadline lock w file q r (ground arith)) (
                earlier (suc (suc n)) (suc n) deadline w (waited deadline lock w) _ (omega arith)
                  (next (ground arith)))
          ]
        ]
  ]

  module _ (ticks : Ticks h) where
    sleeps_one :
        (deadline : ℕ) (lock : ProjectFileLock) (w : World)
        → 0 < lock.poll_interval
        → (drew f h w).monotonic < deadline
        → w.monotonic < (waited deadline lock w).monotonic
    sleeps_one deadline lock w pos lt = ground (
      arith,
      ticks.works w.drawn (w.monotonic, w.utc),
      ticks.sleeps (shorter f h lock.poll_interval (deadline - (drew f h w).monotonic))
          ((drew f h w).monotonic, (drew f h w).utc),
    )

    loop-Ends :
        (n deadline : ℕ) (lock : ProjectFileLock) (w : World)
        → 0 < lock.poll_interval
        → deadline ≤ w.monotonic + n
        → Ends (suc (suc n)) deadline w (acquire_loop f h (suc (suc n)) deadline lock w)
    loop-Ends zero deadline lock w pos le =
        round-Ends zero deadline lock w
          (λ lt. absurd (omega (arith, ticks.works w.drawn (w.monotonic, w.utc))))
    loop-Ends (suc n) deadline lock w pos le = round-Ends (suc n) deadline lock w (λ lt.
        loop-Ends n deadline lock (waited deadline lock w) pos
          (omega (arith, sleeps_one deadline lock w pos lt)))

  pub acquire-free :
      (lock : ProjectFileLock) (w : World)
      → lock.metadata ≡ none
      → acquire f h lock w
        ≡ acquire_loop f h
            (enough f h lock)
            (w.monotonic + lock.wait_timeout)
            (record lock { recovered = none })
            w
  unfolding acquire
  acquire-free lock w q = ground (arith, q)

  acquire-twice :
      (lock : ProjectFileLock) (w : World) (m : LockMetadata)
      → lock.metadata ≡ some m
      → acquire f h lock w ≡ (refused lock_ownership, lock, w)
  unfolding acquire
  acquire-twice lock w m q = ground (arith, q)

  -- With a positive polling interval, a monotonic clock that does not go back and sleeps that are
  -- not too short, `acquire` always ends: it returns metadata or raises, after two rounds more than
  -- the ticks of the waiting time at most. It raises LockTimeoutError only when the waiting time is
  -- over.
  pub acquire-Ends :
      (ticks : Ticks h) (lock : ProjectFileLock) (w : World)
      → 0 < lock.poll_interval
      → Ends (lock.wait_timeout + 2) (w.monotonic + lock.wait_timeout) w (acquire f h lock w)
  acquire-Ends ticks lock w pos = elim (Option-cases lock.metadata) [
    | inl q ↦
        subst (Ends (lock.wait_timeout + 2) (w.monotonic + lock.wait_timeout) w)
          (sym (acquire-free lock w q))
          (earlier (lock.wait_timeout + 2) (suc (suc lock.wait_timeout)) _ w w _ (omega arith) (
            loop-Ends ticks lock.wait_timeout _ (record lock { recovered = none }) w pos
              (omega arith)))
    | inr (m, q) ↦
        subst (Ends (lock.wait_timeout + 2) (w.monotonic + lock.wait_timeout) w)
          (sym (acquire-twice lock w m q))
          (record { returned = λ e. cc e; rounds = omega arith; patient = λ e. cc e })
  ]

  -- a file that `acquire` may not remove: its metadata cannot be trusted, or its process is there
  pub data Kept (file : LockFile) : Type 0 where
    untrusted : read_snapshot f (some file) ≡ Reading.invalid → Kept file
    held :
        (s : Snapshot)
        → read_snapshot f (some file) ≡ Reading.read s
        → h.process_alive s.metadata.pid ≡ true
        → Kept file

  recover-Kept :
      (lock : ProjectFileLock) (w : World) (file : LockFile)
      → w.file ≡ some file
      → Kept file
      → recover f h (inspect f h lock (drew f h w)) (drew f h w) ≡ none
  unfolding recover inspect is_stale
  recover-Kept lock w file q (untrusted u) = ground (arith, q, u)
  recover-Kept lock w file q (held s u a) = ground (arith, q, u, a)

  loop-Kept :
      (n deadline : ℕ) (lock : ProjectFileLock) (w : World) (file : LockFile)
      → w.file ≡ some file
      → Kept file
      → ((acquire_loop f h n deadline lock w).2.file ≡ some file)
        × ((m : LockMetadata) → (acquire_loop f h n deadline lock w).0 ≢ acquired m)
  loop-Kept zero deadline lock w file q k =
      (unfold acquire_loop in q, λ m. unfold acquire_loop in λ e. cc e)
  loop-Kept (suc n) deadline lock w file q k =
      let r = recover-Kept lock w file q k in
      elim (Bool-cases (leb deadline (drew f h w).monotonic)) [
        | inl t ↦ rw (loop-late n deadline lock w file q r (ground arith)) (q, λ m e. cc e)
        | inr t ↦
            rw (loop-waiting n deadline lock w file q r (ground arith))
              (loop-Kept n deadline lock (waited deadline lock w) file q k)
      ]

  -- While a lock file is there whose content cannot be trusted, or whose process is alive, however
  -- old it is, `acquire` leaves the file as it is and returns no metadata.
  pub acquire-Kept :
      (lock : ProjectFileLock) (w : World) (file : LockFile)
      → w.file ≡ some file
      → Kept file
      → ((acquire f h lock w).2.file ≡ some file)
        × ((m : LockMetadata) → (acquire f h lock w).0 ≢ acquired m)
  acquire-Kept lock w file q k = elim (Option-cases lock.metadata) [
    | inl o ↦
        let loop =
          loop-Kept (enough f h lock) (w.monotonic + lock.wait_timeout)
            (record lock { recovered = none }) w file q k in
        (
          ap (λ r. r.2.file) (acquire-free lock w o) ∙ loop.0,
          λ m e. loop.1 m (sym (ap (λ r. r.0) (acquire-free lock w o)) ∙ e),
        )
    | inr (m, o) ↦ (
      ap (λ r. r.2.file) (acquire-twice lock w m o) ∙ q,
      λ n e. absurd (cc (ap (λ r. r.0) (acquire-twice lock w m o), e)),
    )
  ]
