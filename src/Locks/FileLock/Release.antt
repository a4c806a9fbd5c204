-- ===== src/Locks/FileLock/Release.antt =====
-- `release`: only the owner removes the file.
use ai_infrastructure_as_cod.Prelude.{
  suc, ◌+◌, ◌<◌, true, none, some, ◌≡◌, ◌≢◌, refl, ap, ◌∙◌, arith, eq_iff, beq_refl, string_eq,
}
use ai_infrastructure_as_cod.Locks.Metadata.{LockMetadata, Format, is_trusted}
use ai_infrastructure_as_cod.Locks.Metadata.Codec.{from_mapping-to_json}
use ai_infrastructure_as_cod.Locks.FileLock.Acquire.{acquire-free, loop-absent}
use ai_infrastructure_as_cod.Locks.FileLock.{
  World, Host, ProjectFileLock, LockError, lock_ownership, Reading, acquired, read_snapshot,
  remove_unchanged, next_metadata, created, drew, acquire, release,
}

module _ (f : Format) (h : Host) where
  -- A release that raises leaves the lock and the file as they were.
  pub release-err :
      (lock : ProjectFileLock) (w : World) (e : LockError)
      → (release f h lock w).0 ≡ some e
      → ((release f h lock w).1 ≡ lock) × ((release f h lock w).2 ≡ w)
  unfolding release
  release-err lock w e q = ground arith

  acquire-fresh :
      (lock : ProjectFileLock) (w : World)
      → lock.metadata ≡ none
      → w.file ≡ none
      → acquire f h lock w ≡ (
        acquired (next_metadata f h lock w),
        record lock { metadata = some (next_metadata f h lock w); recovered = none },
        created f h (next_metadata f h lock w) (drew f h w),
      )
  acquire-fresh lock w o q =
      acquire-free f h lock w o
      ∙ loop-absent f h (suc lock.wait_timeout) (w.monotonic + lock.wait_timeout)
          (record lock { recovered = none }) w q

  read-created :
      (m : LockMetadata) (w : World)
      → is_trusted f m ≡ true
      → 0 < m.pid
      → read_snapshot f (created f h m w).file
        ≡ Reading.read (record { metadata = m; signature = w.next_signature })
  unfolding read_snapshot
  read-created m w t p = ground (arith, from_mapping-to_json f m t p)

  -- the owner of the file that is there
  owner-release :
      (lock : ProjectFileLock) (m : LockMetadata) (w : World)
      → is_trusted f m ≡ true
      → 0 < m.pid
      → lock.metadata ≡ some m
      → release f h lock (created f h m w)
        ≡ (none, record lock { metadata = none }, record (created f h m w) { file = none })
  unfolding release remove_unchanged
  owner-release lock m w t p o = ground (arith, read-created m w t p, o, beq_refl m.owner_token)

  -- another instance
  other-release :
      (lock : ProjectFileLock) (m n : LockMetadata) (w : World)
      → is_trusted f m ≡ true
      → 0 < m.pid
      → lock.metadata ≡ some n
      → n.owner_token ≢ m.owner_token
      → release f h lock (created f h m w) ≡ (some lock_ownership, lock, created f h m w)
  unfolding release
  other-release lock m n w t p o ne =
      ground (arith, read-created m w t p, o, eq_iff m.owner_token n.owner_token)

  -- Where no lock file is there, `acquire` takes the lock: it returns metadata with the project and
  -- the task of the lock, the time, the process and a new token, and the file then reads as this
  -- metadata. Another instance, with another token, cannot release it: it raises and the file
  -- stays. The owner can: the file is gone, and the instance can be acquired again.
  pub acquire-release :
      (lock other : ProjectFileLock) (m : LockMetadata) (w : World)
      → lock.metadata ≡ none
      → w.file ≡ none
      → is_trusted f (next_metadata f h lock w) ≡ true
      → 0 < h.own_pid
      → other.metadata ≡ some m
      → m.owner_token ≢ h.token w.drawn
      → let (r, owner, held) = acquire f h lock w in
        let mine : LockMetadata = record {
          project = lock.project_id;
          task = lock.task_id;
          created_at = f.format_timestamp w.utc;
          pid = h.own_pid;
          owner_token = h.token w.drawn;
        } in
        (r ≡ acquired mine)
        × (read_snapshot f held.file
            ≡ Reading.read (record { metadata = mine; signature = w.next_signature }))
        × (release f h other held ≡ (some lock_ownership, other, held))
        × ((release f h owner held).0 ≡ none)
        × ((release f h owner held).1.metadata ≡ none)
        × ((release f h owner held).2.file ≡ none)
  acquire-release lock other m w o q t p k ne =
      let mine = next_metadata f h lock w in
      let owner =
        owner-release (record lock { metadata = some mine; recovered = none }) mine (drew f h w) t p
          refl in
      rw (acquire-fresh lock w o q) (
        refl,
        read-created mine (drew f h w) t p,
        other-release other mine m (drew f h w) t p k ne,
        ap (λ r. r.0) owner,
        ap (λ r. r.1.metadata) owner,
        ap (λ r. r.2.file) owner,
      )
