-- ===== src/Server/Flocks/Tests.antt =====
-- Runs of the table of whole-file locks, and the theorems at concrete tables.
use fabric_fs.Prelude.{ℕ, ◌≡◌, refl, List, [], ok, err, any, retain, bytes, bytes_eq}
use fabric_fs.Prelude.Map
use fabric_fs.Server.Flocks.{
  FlockTable, eagain, eopnotsupp, lock_ex, is_nonblocking, without_nonblocking,
  validate_flock_operation, conflicts, flocks_at, unlock_owned, push, flock_typ, flock,
  release_handle,
}
use fabric_fs.Server.Flocks.Holding.{
  flock_held, expected_flock, held-flock, IsExclusive, flock-IsExclusive,
}

program : Unit {0}
unfolding Map.get Map.remove Map.insert Map.filter_map any retain is_nonblocking without_nonblocking
    validate_flock_operation conflicts flocks_at unlock_owned push flock_typ flock release_handle
    flock_held
program = tt

abbrev file : List ℕ
file = bytes "8:42"

abbrev empty : FlockTable
empty = []

-- Owner 7 takes an exclusive lock without waiting.
abbrev locked : FlockTable
locked = (flock empty file 1 7 6).0

other_owner :
    ((flock locked file 2 8 1).1 ≡ err eopnotsupp)
    × ((flock locked file 2 8 5).1 ≡ err eagain)
    × ((flock (release_handle locked 1) file 2 8 5).1 ≡ ok tt)
unfolding program
other_owner = (refl, refl, refl)

valid_operation : validate_flock_operation 6 ≡ ok lock_ex
unfolding program
valid_operation = refl

accepted : (flock empty file 1 7 6).1 ≡ ok tt
unfolding program
accepted = refl

held-flock_example : flock_held locked file 7 2 ≡ expected_flock empty file 1 7 6 2 file 7 2
held-flock_example = held-flock empty file 1 7 6 2 file 7 2 valid_operation accepted

empty-IsExclusive : IsExclusive empty
unfolding program
empty-IsExclusive = record { exclusive = λ j o t o' t' p q other. absurd (cc) }

flock-IsExclusive_example : IsExclusive locked
flock-IsExclusive_example = flock-IsExclusive empty file 1 7 6 empty-IsExclusive
