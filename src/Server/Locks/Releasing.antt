-- ===== src/Server/Locks/Releasing.antt =====
-- `release_handle` and `release_owner` byte by byte, the ranges that every operation keeps, and the
-- answer of `getlk` against what `setlk` would do.
use fabric_fs.Prelude.{
  ℕ, ◌≤◌, ◌≡◌, ◌∙◌, refl, ◌&&◌, not, List, [], ◌∷◌, arith, ◌==◌, u64_max, Bool-cases, Option-cases,
  inl, inr, if◌then◌else◌, ◌===◌, bytes_eq, ok, err, Result, Option, none, some, retain, any,
  any-find, find-any,
}
use fabric_fs.Prelude.Map
use fabric_fs.Prelude.Eq.{bytes_beq_iff}
use fabric_fs.Server.Locks.{
  BackendLock, FileLock, LockTable, eagain, conflicts, locks_at, setlk, getlk, release_handle,
  release_owner, some_unless_empty, or_default,
}
use fabric_fs.Server.Locks.Coverage.{Holder, covered, covers, held_by}
use fabric_fs.Server.Locks.Setting.{
  IsTable, held, unlock-IsTable, granted-IsTable, locks_at-put_or_remove,
}
use fabric_fs.Server.Locks.Accepting.{Outcome, outcome, invalid, refused, freed, granted_}

covered-retain_handle :
    (h : Holder) (b handle : ℕ) (locks : List BackendLock)
    → covered h b (retain (λ lock. not (lock.handle == handle)) locks)
      ≡ (not (h.handle == handle) && covered h b locks)
unfolding covered covers held_by retain
covered-retain_handle h b handle [] = ground arith
covered-retain_handle h b handle (lock ∷ rest) =
    ground (arith, covered-retain_handle h b handle rest)

covered-retain_owner :
    (h : Holder) (b owner : ℕ) (locks : List BackendLock)
    → covered h b (retain (λ lock. not (lock.owner == owner)) locks)
      ≡ (not (h.owner == owner) && covered h b locks)
unfolding covered covers held_by retain
covered-retain_owner h b owner [] = ground arith
covered-retain_owner h b owner (lock ∷ rest) = ground (arith, covered-retain_owner h b owner rest)

or_default-some_unless_empty :
    (locks : List BackendLock) → or_default (some_unless_empty locks) ≡ locks
or_default-some_unless_empty [] = refl
or_default-some_unless_empty (x ∷ xs) = refl

locks_at-release_handle :
    (table : LockTable) (handle : ℕ) (key : List ℕ)
    → locks_at (release_handle table handle) key
      ≡ retain (λ lock. not (lock.handle == handle)) (locks_at table key)
unfolding locks_at release_handle retain
locks_at-release_handle table handle key = rw Map.get-filter_map (go (Map.get table key))
  where
    go :
        (o : Option (List BackendLock))
        → or_default (
            Map.bind_value
              (λ locks. some_unless_empty (retain (λ lock. not (lock.handle == handle)) locks))
              o)
          ≡ retain (λ lock. not (lock.handle == handle)) (or_default o)
    go none = refl
    go (some locks) = or_default-some_unless_empty _

-- Closing a handle frees, in every file, the bytes that were locked through it and no others.
pub held-release_handle :
    (table : LockTable) (handle : ℕ) (key : List ℕ) (h : Holder) (b : ℕ)
    → held (release_handle table handle) key h b ≡ (not (h.handle == handle) && held table key h b)
held-release_handle table handle key h b =
    rw locks_at-release_handle (covered-retain_handle h b handle (locks_at table key))

locks_at-release_owner :
    (table : LockTable) (key : List ℕ) (owner : ℕ) (j : List ℕ)
    → locks_at (release_owner table key owner) j ≡ (
        if key === j
        then retain (λ lock. not (lock.owner == owner)) (locks_at table key)
        else locks_at table j)
unfolding release_owner locks_at retain
locks_at-release_owner table key owner j = elim (Option-cases (Map.get table key)) [
  | inl absent ↦ rw (absent, release_owner) (ground (arith, bytes_beq_iff key j))
  | inr (locks, present) ↦
      rw (present, release_owner)
        (locks_at-put_or_remove table key (retain (λ lock. not (lock.owner == owner)) locks) j)
]

-- Releasing an owner frees all its bytes in that file, and no others.
pub held-release_owner :
    (table : LockTable) (key : List ℕ) (owner : ℕ) (j : List ℕ) (h : Holder) (b : ℕ)
    → held (release_owner table key owner) j h b
      ≡ (not ((key === j) && h.owner == owner) && held table j h b)
held-release_owner table key owner j h b = elim (Bool-cases (key === j)) [
  | inl same ↦
      rw (locks_at-release_owner, same)
        (covered-retain_owner h b owner (locks_at table key) ∙ rw ((bytes_beq_iff key j).0 same))
  | inr other ↦ rw (locks_at-release_owner, other)
]

-- If every range of the table is in order and within u64, it is after a request with an end within
-- u64, whatever its outcome.
pub setlk-IsTable :
    (table : LockTable) (key : List ℕ) (handle owner start end typ pid : ℕ)
    → end ≤ u64_max
    → IsTable table
    → IsTable (setlk table key handle owner start end typ pid).0
setlk-IsTable table key handle owner start end typ pid fits t =
    by_outcome (outcome table key handle owner start end typ pid)
  where
    by_outcome :
        Outcome table key handle owner start end typ pid
        → IsTable (setlk table key handle owner start end typ pid).0
    by_outcome (invalid _ e) = rw e t
    by_outcome (refused _ _ e) = rw e t
    by_outcome (freed _ e) = rw e (unlock-IsTable table key owner start end t)
    by_outcome (granted_ _ _ le e) =
        rw e (granted-IsTable table key handle owner start end typ pid le fits t)

-- What `setlk` would answer to the request that `getlk` was asked about.
abbrev pub answer : Result ℕ (Option FileLock) → Result ℕ (Unit {0})
answer (err e) = err e
answer (ok none) = ok tt
answer (ok (some lock)) = err eagain

-- `getlk` foretells the result of `setlk`: where it finds no lock, `setlk` succeeds, where it finds one,
-- `setlk` fails with EAGAIN, and an error is the same error.
pub getlk-setlk :
    (table : LockTable) (key : List ℕ) (handle owner start end typ pid : ℕ)
    → (setlk table key handle owner start end typ pid).1
      ≡ answer (getlk table key owner start end typ)
unfolding getlk setlk
getlk-setlk table key handle owner start end typ pid =
    elim (Bool-cases (any (λ lock. conflicts lock owner start end typ) (locks_at table key))) [
      | inl hit ↦
          let (lock, found) =
            any-find (λ lock. conflicts lock owner start end typ) (locks_at table key) hit in
          ground arith
      | inr miss ↦
          ground (arith, find-any (λ lock. conflicts lock owner start end typ) (locks_at table key))
    ]
