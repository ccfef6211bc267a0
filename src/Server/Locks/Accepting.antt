-- ===== src/Server/Locks/Accepting.antt =====
-- The outcomes of `setlk`, and what an accepted request does to the bytes of every file.
use fabric_fs.Prelude.{
  ℕ, ◌≤◌, ◌≡◌, Bool, true, false, ◌&&◌, not, List, arith, ◌==◌, u64_max, Bool-cases, inl, inr,
  if◌then◌else◌, ◌===◌, bytes_eq, ok, err, Result, ◌⊎◌,
}
use fabric_fs.Server.Locks.{
  LockTable, f_unlck, einval, eagain, validate_lock_request, setlk, unlock_owned_range,
}
use fabric_fs.Server.Locks.Coverage.{Holder}
use fabric_fs.Server.Locks.Cutting.{taken}
use fabric_fs.Server.Locks.Setting.{
  IsTable, held, is_new_holder, blocked, setlk_invalid, setlk_unlock, setlk_refused, setlk_granted,
  held-unlock, granted, held-granted,
}

valid-le : (start end typ : ℕ) → validate_lock_request start end typ ≡ ok tt → start ≤ end
unfolding validate_lock_request
valid-le start end typ h = ground arith

validate-cases :
    (start end typ : ℕ)
    → (validate_lock_request start end typ ≡ ok tt)
      ⊎ (validate_lock_request start end typ ≡ err einval)
unfolding validate_lock_request
validate-cases start end typ = ground arith

module _ (table : LockTable) (key : List ℕ) (handle owner start end typ pid : ℕ) where
  abbrev pub request : LockTable × Result ℕ (Unit {0})
  request = setlk table key handle owner start end typ pid

  abbrev pub is_blocked : Bool
  is_blocked = blocked table key handle owner start end typ pid

  abbrev pub after_grant : LockTable
  after_grant = granted table key handle owner start end typ pid

  -- The four ways in which a request ends.
  pub data Outcome : Type 0 where
    invalid :
        validate_lock_request start end typ ≡ err einval → request ≡ (table, err einval) → Outcome
    refused : (typ == f_unlck) ≡ false → is_blocked ≡ true → request ≡ (table, err eagain) → Outcome
    freed :
        (typ == f_unlck) ≡ true
        → request ≡ (unlock_owned_range table key owner start end, ok tt)
        → Outcome
    granted_ :
        (typ == f_unlck) ≡ false
        → is_blocked ≡ false
        → start ≤ end
        → request ≡ (after_grant, ok tt)
        → Outcome

  pub outcome : Outcome
  outcome = elim (validate-cases start end typ) [
    | inr bad ↦ invalid bad (setlk_invalid table key handle owner start end typ pid einval bad)
    | inl valid ↦ elim (Bool-cases (typ == f_unlck)) [
      | inl un ↦ freed un (setlk_unlock table key handle owner start end typ pid valid un)
      | inr lk ↦ elim (Bool-cases is_blocked) [
        | inl b ↦ refused lk b (setlk_refused table key handle owner start end typ pid valid lk b)
        | inr b ↦
            granted_ lk b (valid-le start end typ valid)
              (setlk_granted table key handle owner start end typ pid valid lk b)
      ]
    ]
  ]

  -- A byte after an accepted request: in the range of the owner it is the new lock's, or free after
  -- an unlock; any other byte is as it was.
  abbrev pub expected : List ℕ → Holder → ℕ → Bool
  expected j h b =
      if (key === j) && taken h owner start end b
      then not (typ == f_unlck) && is_new_holder h owner typ pid handle
      else held table j h b

  -- In a table whose ranges are in order and within u64, a request that `setlk` accepts, with an end
  -- within u64, changes exactly the bytes of its range that the owner holds in that file: a lock gives
  -- them to the holder that asked, an unlock to none.
  pub held-setlk :
      IsTable table
      → end ≤ u64_max
      → request.1 ≡ ok tt
      → (j : List ℕ) (h : Holder) (b : ℕ) → held request.0 j h b ≡ expected j h b
  held-setlk t fits accepted j h b = by_outcome outcome
    where
      by_outcome : Outcome → held request.0 j h b ≡ expected j h b
      by_outcome (invalid bad e) = cc
      by_outcome (refused lk blk e) = cc
      by_outcome (freed un e) =
          rw (e, un) (ground (arith, held-unlock table key owner start end j h b t))
      by_outcome (granted_ lk free le e) =
          rw (e, lk) (held-granted table key handle owner start end typ pid le fits t j h b)
