-- ===== src/Server/Locks/Tests.antt =====
-- Runs of the lock table, and the theorems at concrete tables.
use fabric_fs.Prelude.{
  ℕ, ◌≡◌, refl, ◌↔◌, true, false, not, ◌&&◌, List, [], arith, ◌==◌, bytes, bytes_eq, ok, err, any,
  find, retain,
}
use fabric_fs.Prelude.Map
use fabric_fs.Server.Locks.{
  LockTable, f_rdlck, f_wrlck, f_unlck, eagain, conflicts, validate_lock_request, lex, key_le,
  insert_sorted, sort_by_key, adjacent, same_holder, merge_into, merge_path_locks, cut, cut_all,
  unlock_owned_range, locks_at, getlk, setlk, release_handle, release_owner,
}
use fabric_fs.Server.Locks.Coverage.{Holder, covered, covers}
use fabric_fs.Server.Locks.Setting.{IsTable, held}
use fabric_fs.Server.Locks.Accepting.{expected, held-setlk}
use fabric_fs.Server.Locks.Exclusion.{IsExclusive, Clash, setlk-refused_iff, setlk-IsExclusive}
use fabric_fs.Server.Locks.Releasing.{held-release_handle, setlk-IsTable, getlk-setlk, answer}

program : Unit {0}
unfolding Map.get Map.remove Map.insert Map.filter_map any find retain conflicts
    validate_lock_request lex key_le insert_sorted sort_by_key adjacent same_holder merge_into
    merge_path_locks cut cut_all unlock_owned_range locks_at getlk setlk release_handle
    release_owner covered covers
program = tt

abbrev file : List ℕ
file = bytes "8:42"

abbrev empty : LockTable
empty = []

-- Owner 7 locks the bytes 0 to 99 for writing through handle 1, and frees 40 to 49.
abbrev locked : LockTable
locked = (setlk empty file 1 7 0 99 f_wrlck 5).0

abbrev writer : Holder
writer = record { owner = 7; typ = f_wrlck; pid = 5; handle = 1 }

abbrev pierced : LockTable
pierced = (setlk locked file 1 7 40 49 f_unlck 5).0

pierced_bytes :
    (held pierced file writer 39 ≡ true)
    × (held pierced file writer 40 ≡ false)
    × (held pierced file writer 50 ≡ true)
unfolding program
pierced_bytes = (refl, refl, refl)

other_owner :
    ((setlk pierced file 2 8 45 49 f_rdlck 6).1 ≡ ok tt)
    × ((setlk pierced file 2 8 45 50 f_rdlck 6).1 ≡ err eagain)
unfolding program
other_owner = (refl, refl)

empty-IsTable : IsTable empty
unfolding program
empty-IsTable = record { ranges = λ key. tt }

empty-IsExclusive : IsExclusive empty
unfolding program
empty-IsExclusive = record { exclusive = λ key g h b p q o. cc }

locked-IsTable : IsTable locked
locked-IsTable = setlk-IsTable empty file 1 7 0 99 f_wrlck 5 (omega arith) empty-IsTable

locked_ok : (setlk locked file 1 7 40 49 f_unlck 5).1 ≡ ok tt
unfolding program
locked_ok = refl

held-setlk_example :
    held pierced file writer 45 ≡ expected locked file 1 7 40 49 f_unlck 5 file writer 45
held-setlk_example =
    held-setlk locked file 1 7 40 49 f_unlck 5 locked-IsTable (omega arith) locked_ok file writer 45

valid_read : validate_lock_request 45 50 f_rdlck ≡ ok tt
unfolding program
valid_read = refl

setlk-refused_iff_example :
    ((setlk locked file 2 8 45 50 f_rdlck 6).1 ≡ err eagain)
    ↔ Clash 8 45 50 f_rdlck (locks_at locked file)
setlk-refused_iff_example =
    setlk-refused_iff locked file 2 8 45 50 f_rdlck 6 locked-IsTable valid_read refl (omega arith)

setlk-IsExclusive_example : IsExclusive locked
setlk-IsExclusive_example =
    setlk-IsExclusive empty file 1 7 0 99 f_wrlck 5 empty-IsTable (omega arith) empty-IsExclusive

held-release_handle_example :
    held (release_handle locked 1) file writer 3 ≡ (not (1 == 1) && held locked file writer 3)
held-release_handle_example = held-release_handle locked 1 file writer 3

getlk-setlk_example :
    (setlk locked file 2 8 45 50 f_rdlck 6).1 ≡ answer (getlk locked file 8 45 50 f_rdlck)
getlk-setlk_example = getlk-setlk locked file 2 8 45 50 f_rdlck 6
