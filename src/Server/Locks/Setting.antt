-- ===== src/Server/Locks/Setting.antt =====
-- `setlk` against its description byte by byte: the owner's bytes of the range change to the new
-- lock, or are freed by an unlock, and every other byte of every file stays as it was.
use fabric_fs.Prelude.{
  ℕ, ◌≤◌, ◌≡◌, ◌∙◌, refl, Bool, true, false, ◌&&◌, ◌||◌, not, List, [], ◌∷◌, ◌++◌, arith, ◌==◌,
  u64_max, any, All-append, Bool-cases, Option-cases, inl, inr, if◌then◌else◌, ◌===◌, bytes_eq,
  ===_refl, ok, err, Result,
}
use fabric_fs.Prelude.Map
use fabric_fs.Prelude.Eq.{bytes_beq_iff}
use fabric_fs.Server.Locks.{
  BackendLock, LockTable, f_unlck, eagain, conflicts, validate_lock_request, cut_all,
  merge_path_locks, sort_by_key, put_or_remove, unlock_owned_range, locks_at, setlk,
}
use fabric_fs.Server.Locks.Coverage.{
  Holder, covered, covered-append, covers, in_range, IsRange, AllRanges,
}
use fabric_fs.Server.Locks.Cutting.{taken, covered-cut_all, cut_all-AllRanges}
use fabric_fs.Server.Locks.Merging.{covered-merge_path_locks, merge_path_locks-AllRanges}

-- Every lock of the table has a range.
pub record IsTable (table : LockTable) : Type 0 where
  pub ranges : (key : List ℕ) → AllRanges (locks_at table key)

merge-cut-nil : (owner start end : ℕ) → merge_path_locks (cut_all owner start end []) ≡ []
unfolding merge_path_locks cut_all sort_by_key
merge-cut-nil owner start end = refl

module _ (table : LockTable) (key : List ℕ) where
  pub locks_at-put_or_remove :
      (locks : List BackendLock) (j : List ℕ)
      → locks_at (put_or_remove table key locks) j ≡ (if key === j then locks else locks_at table j)
  unfolding locks_at
  locks_at-put_or_remove [] j = ground (arith, Map.get-remove table key j)
  locks_at-put_or_remove (x ∷ xs) j = ground (arith, Map.get-insert table key j (x ∷ xs))

  pub locks_at-insert :
      (locks : List BackendLock) (j : List ℕ)
      → locks_at (Map.insert table key locks) j ≡ (if key === j then locks else locks_at table j)
  unfolding locks_at
  locks_at-insert locks j = ground (arith, Map.get-insert table key j locks)

  pub locks_at-unlock :
      (owner start end : ℕ) (j : List ℕ)
      → locks_at (unlock_owned_range table key owner start end) j ≡ (
          if key === j
          then merge_path_locks (cut_all owner start end (locks_at table key))
          else locks_at table j)
  unfolding unlock_owned_range locks_at
  locks_at-unlock owner start end j = elim (Option-cases (Map.get table key)) [
    | inl absent ↦
        rw (absent, unlock_owned_range, merge-cut-nil owner start end)
          (ground (arith, bytes_beq_iff key j))
    | inr (locks, present) ↦
        rw (present, unlock_owned_range)
          (locks_at-put_or_remove (merge_path_locks (cut_all owner start end locks)) j)
  ]

abbrev pub held : LockTable → List ℕ → Holder → ℕ → Bool
held table key h byte = covered h byte (locks_at table key)

pub unlock-IsTable :
    (table : LockTable) (key : List ℕ) (owner start end : ℕ)
    → IsTable table
    → IsTable (unlock_owned_range table key owner start end)
unlock-IsTable table key owner start end t = record {
  ranges = λ j. elim (Bool-cases (key === j)) [
    | inl same ↦
        rw (locks_at-unlock table key owner start end j, same)
          (merge_path_locks-AllRanges _ (cut_all-AllRanges owner start end _ (t.ranges key)))
    | inr other ↦ rw (locks_at-unlock table key owner start end j, other) (t.ranges j)
  ];
}

-- An unlock frees the bytes of the range that the owner had locked in the file.
pub held-unlock :
    (table : LockTable) (key : List ℕ) (owner start end : ℕ) (j : List ℕ) (h : Holder) (b : ℕ)
    → IsTable table
    → held (unlock_owned_range table key owner start end) j h b
      ≡ (not ((key === j) && taken h owner start end b) && held table j h b)
held-unlock table key owner start end j h b t = elim (Bool-cases (key === j)) [
  | inl same ↦
      rw (locks_at-unlock table key owner start end j, same)
        (covered-merge_path_locks h b _ (cut_all-AllRanges owner start end _ (t.ranges key))
          ∙ rw (covered-cut_all, (bytes_beq_iff key j).0 same))
  | inr other ↦ rw (locks_at-unlock table key owner start end j, other)
]

abbrev pub is_new_holder : Holder → ℕ → ℕ → ℕ → ℕ → Bool
is_new_holder h owner typ pid handle =
    h.owner == owner && h.typ == typ && h.pid == pid && h.handle == handle

module _ (table : LockTable) (key : List ℕ) (handle owner start end typ pid : ℕ) where
  abbrev pub request : LockTable × Result ℕ (Unit {0})
  request = setlk table key handle owner start end typ pid

  abbrev pub new_lock : BackendLock
  new_lock = record {
    handle = handle;
    owner = owner;
    start = start;
    end = end;
    typ = typ;
    pid = pid;
  }

  -- Some lock of the file is in the way of the request.
  abbrev pub blocked : Bool
  blocked = any (λ lock. conflicts lock owner start end typ) (locks_at table key)

  pub setlk_invalid :
      (e : ℕ) → validate_lock_request start end typ ≡ err e → request ≡ (table, err e)
  unfolding setlk
  setlk_invalid e h = ground arith

  pub setlk_unlock :
      validate_lock_request start end typ ≡ ok tt
      → (typ == f_unlck) ≡ true
      → request ≡ (unlock_owned_range table key owner start end, ok tt)
  unfolding setlk
  setlk_unlock h u = ground arith

  pub setlk_refused :
      validate_lock_request start end typ ≡ ok tt
      → (typ == f_unlck) ≡ false
      → blocked ≡ true
      → request ≡ (table, err eagain)
  unfolding setlk
  setlk_refused h u b = ground arith

  abbrev pub unlocked : LockTable
  unlocked = unlock_owned_range table key owner start end

  pub setlk_granted :
      validate_lock_request start end typ ≡ ok tt
      → (typ == f_unlck) ≡ false
      → blocked ≡ false
      → request ≡ (
        Map.insert unlocked key (merge_path_locks (locks_at unlocked key ++ new_lock ∷ [])),
        ok tt,
      )
  unfolding setlk
  setlk_granted h u b = ground arith

  covered-new_lock :
      (h : Holder) (b : ℕ)
      → covered h b (new_lock ∷ []) ≡ (is_new_holder h owner typ pid handle && in_range start end b)
  unfolding covered covers
  covered-new_lock h b = ground arith

  AllRanges-new_lock : start ≤ end → end ≤ u64_max → AllRanges (new_lock ∷ [])
  AllRanges-new_lock le fits = (record { ordered = le; fits = fits }, tt)

  abbrev pub granted : LockTable
  granted = Map.insert unlocked key (merge_path_locks (locks_at unlocked key ++ new_lock ∷ []))

  module _ (le : start ≤ end) (fits : end ≤ u64_max) (t : IsTable table) where
    unlocked_new-AllRanges : AllRanges (locks_at unlocked key ++ new_lock ∷ [])
    unlocked_new-AllRanges =
        All-append IsRange (locks_at unlocked key) (new_lock ∷ [])
          ((unlock-IsTable table key owner start end t).ranges key) (AllRanges-new_lock le fits)

    pub granted-IsTable : IsTable granted
    granted-IsTable = record {
      ranges = λ j. elim (Bool-cases (key === j)) [
        | inl same ↦
            rw (locks_at-insert unlocked key _ j, same)
              (merge_path_locks-AllRanges _ unlocked_new-AllRanges)
        | inr other ↦
            rw (locks_at-insert unlocked key _ j, other)
              ((unlock-IsTable table key owner start end t).ranges j)
      ];
    }

    abbrev pub after_grant : List ℕ → Holder → ℕ → Bool
    after_grant j h b =
        if (key === j) && taken h owner start end b
        then is_new_holder h owner typ pid handle
        else held table j h b

    -- A byte that the owner keeps is not of the new lock, which covers only the range.
    grant_bits :
        (h : Holder) (b : ℕ) (before : Bool)
        → ((not (taken h owner start end b) && before)
            || (is_new_holder h owner typ pid handle && in_range start end b))
          ≡ (if taken h owner start end b then is_new_holder h owner typ pid handle else before)
    unfolding taken
    grant_bits h b before = ground arith

    pub held-granted : (j : List ℕ) (h : Holder) (b : ℕ) → held granted j h b ≡ after_grant j h b
    held-granted j h b = elim (Bool-cases (key === j)) [
      | inl same ↦
          rw (locks_at-insert unlocked key _ j, same)
            (covered-merge_path_locks h b _ unlocked_new-AllRanges
              ∙ at_key
              ∙ rw ((bytes_beq_iff key j).0 same))
      | inr other ↦
          rw (locks_at-insert unlocked key _ j, other)
            (held-unlock table key owner start end j h b t ∙ rw other)
    ]
      where
        at_key : covered h b (locks_at unlocked key ++ new_lock ∷ []) ≡ (
            if taken h owner start end b
            then is_new_holder h owner typ pid handle
            else held table key h b)
        at_key =
            covered-append h b (locks_at unlocked key) (new_lock ∷ [])
            ∙ rw (held-unlock table key owner start end key h b t, covered-new_lock, ===_refl key)
                (grant_bits h b (held table key h b))
