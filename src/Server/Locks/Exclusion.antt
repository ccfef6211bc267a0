-- ===== src/Server/Locks/Exclusion.antt =====
-- Mutual exclusion: no byte of a file is write-locked by one owner and locked by another.
use fabric_fs.Prelude.{
  ℕ, ◌≤◌, ◌≡◌, Bool, true, false, ◌||◌, List, [], ◌∷◌, arith, ◌==◌, u64_max, any, Bool-cases, inl,
  inr, bytes_eq, ok, err, Result, max, ◌↔◌,
}
use fabric_fs.Prelude.Eq.{bytes_beq_iff}
use fabric_fs.Server.Locks.{
  BackendLock, LockTable, f_unlck, f_wrlck, eagain, conflicts, validate_lock_request, locks_at,
  setlk,
}
use fabric_fs.Server.Locks.Coverage.{Holder, covered, covers, held_by, in_range, IsRange, AllRanges}
use fabric_fs.Server.Locks.Cutting.{taken}
use fabric_fs.Server.Locks.Setting.{IsTable, held, held-unlock, held-granted}
use fabric_fs.Server.Locks.Accepting.{Outcome, outcome, invalid, refused, freed, granted_}

-- Two locks of a byte are at odds: one of them is a write lock.
abbrev pub odds : ℕ → ℕ → Bool
odds typ typ' = typ == f_wrlck || typ' == f_wrlck

pub record IsExclusive (table : LockTable) : Type 0 where
  pub exclusive :
      (key : List ℕ) (g h : Holder) (b : ℕ)
      → held table key g b ≡ true
      → held table key h b ≡ true
      → (g.owner == h.owner) ≡ false
      → odds g.typ h.typ ≡ false

-- Another owner's byte in the range is not at odds with a request that is not blocked.
free_bytes :
    (owner start end typ : ℕ) (locks : List BackendLock) (h : Holder) (b : ℕ)
    → any (λ lock. conflicts lock owner start end typ) locks ≡ false
    → covered h b locks ≡ true
    → in_range start end b ≡ true
    → (h.owner == owner) ≡ false
    → odds h.typ typ ≡ false
unfolding any covered covers conflicts in_range held_by
free_bytes owner start end typ [] h b free c r o = cc
free_bytes owner start end typ (lock ∷ rest) h b free c r o =
    ground (arith, free_bytes owner start end typ rest h b)

-- What blocks a request: a byte of the range that another owner has locked, one of the two for
-- writing.
abbrev pub Clash : ℕ → ℕ → ℕ → ℕ → List BackendLock → Type 0
Clash owner start end typ locks =
    (h : Holder) × (b : ℕ) × (covered h b locks ≡ true)
    × (in_range start end b ≡ true)
    × ((h.owner == owner) ≡ false)
    × (odds h.typ typ ≡ true)

abbrev holder : BackendLock → Holder
holder lock = record { owner = lock.owner; typ = lock.typ; pid = lock.pid; handle = lock.handle }

lock-Clash :
    (owner start end typ : ℕ) (lock : BackendLock) (rest : List BackendLock)
    → start ≤ end
    → IsRange lock
    → conflicts lock owner start end typ ≡ true
    → Clash owner start end typ (lock ∷ rest)
unfolding conflicts covered covers
lock-Clash owner start end typ lock rest le r c =
    (holder lock, max lock.start start, ground arith, ground arith, ground arith, ground arith)

covered-cons :
    (h : Holder) (b : ℕ) (lock : BackendLock) (rest : List BackendLock)
    → covered h b rest ≡ true
    → covered h b (lock ∷ rest) ≡ true
unfolding covered
covered-cons h b lock rest c = ground arith

blocked-Clash :
    (owner start end typ : ℕ) (locks : List BackendLock)
    → start ≤ end
    → AllRanges locks
    → any (λ lock. conflicts lock owner start end typ) locks ≡ true
    → Clash owner start end typ locks
unfolding any
blocked-Clash owner start end typ [] le r c = absurd (cc)
blocked-Clash owner start end typ (lock ∷ rest) le r c =
    elim (Bool-cases (conflicts lock owner start end typ)) [
      | inl here ↦ lock-Clash owner start end typ lock rest le r.0 here
      | inr there ↦
          let (h, b, cov, i, o, w) =
            blocked-Clash owner start end typ rest le r.1 (rw there at c) in
          (h, b, covered-cons h b lock rest cov, i, o, w)
    ]

module _ (table : LockTable) (key : List ℕ) (handle owner start end typ pid : ℕ) where
  abbrev pub result : LockTable × Result ℕ (Unit {0})
  result = setlk table key handle owner start end typ pid

  -- In a table whose ranges are in order and within u64, a request of a lock with `start ≤ end` and a
  -- known type other than the unlock is refused with EAGAIN exactly when another owner has a byte of
  -- the range locked and one of the two locks is a write lock.
  pub setlk-refused_iff :
      IsTable table
      → validate_lock_request start end typ ≡ ok tt
      → (typ == f_unlck) ≡ false
      → start ≤ end
      → (result.1 ≡ err eagain) ↔ Clash owner start end typ (locks_at table key)
  setlk-refused_iff t valid lk le = (
    to_clash (outcome table key handle owner start end typ pid),
    from_clash (outcome table key handle owner start end typ pid),
  )
    where
      to_clash :
          Outcome table key handle owner start end typ pid
          → result.1 ≡ err eagain
          → Clash owner start end typ (locks_at table key)
      to_clash (invalid bad e) h = absurd (cc)
      to_clash (refused _ b e) h =
          blocked-Clash owner start end typ (locks_at table key) le (t.ranges key) b
      to_clash (freed un e) h = absurd (cc)
      to_clash (granted_ _ free _ e) h = absurd (cc)

      from_clash :
          Outcome table key handle owner start end typ pid
          → Clash owner start end typ (locks_at table key)
          → result.1 ≡ err eagain
      from_clash (invalid bad e) c = absurd (cc)
      from_clash (refused _ b e) c = cc
      from_clash (freed un e) c = absurd (cc)
      from_clash (granted_ _ free _ e) (h, b, cov, i, o, w) =
          absurd (cc (free_bytes owner start end typ (locks_at table key) h b free cov i o))

  -- In a table without conflicting locks, whose ranges are in order and within u64, a request with an
  -- end within u64, whatever its outcome, leaves no conflicting locks.
  pub setlk-IsExclusive : IsTable table → end ≤ u64_max → IsExclusive table → IsExclusive result.0
  unfolding taken
  setlk-IsExclusive t fits x = by_outcome (outcome table key handle owner start end typ pid)
    where
      by_outcome : Outcome table key handle owner start end typ pid → IsExclusive result.0
      by_outcome (invalid bad e) = rw e x
      by_outcome (refused _ _ e) = rw e x
      by_outcome (freed un e) = rw e (record {
        exclusive = λ j g h b p q o. ground (
          arith,
          held-unlock table key owner start end j g b t,
          held-unlock table key owner start end j h b t,
          x.exclusive j g h b,
        );
      })
      by_outcome (granted_ lk free le e) = rw e (record {
        exclusive = λ j g h b p q o. ground (
          arith,
          held-granted table key handle owner start end typ pid le fits t j g b,
          held-granted table key handle owner start end typ pid le fits t j h b,
          free_bytes owner start end typ (locks_at table key) g b free,
          free_bytes owner start end typ (locks_at table key) h b free,
          bytes_beq_iff key j,
          x.exclusive j g h b,
        );
      })
