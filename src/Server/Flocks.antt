-- ===== src/Server/Flocks.antt =====
-- fabricfs-server/src/server/locks.rs: locks of whole files, `FlockTable`. An `operation` is an `i32`,
-- and ℕ stands for it: a negative one is refused with EINVAL like any other unknown one.
pub mod Holding
mod Tests
use fabric_fs.Prelude.{
  ℕ, ◌+◌, ◌-◌, ◌*◌, ◌/◌, ◌%◌, ◌≡◌, Bool, true, false, ◌&&◌, ◌||◌, not, Option, none, some, List, [],
  ◌∷◌, ◌++◌, ◌==◌, if◌then◌else◌, Result, ok, err, any, retain, bytes_eq,
}
use fabric_fs.Prelude.Map
use fabric_fs.Prelude.Map.{Map}

-- libc::LOCK_SH, LOCK_EX, LOCK_NB, LOCK_UN; EINVAL, EAGAIN, EOPNOTSUPP
abbrev pub lock_sh : ℕ
lock_sh = 1

abbrev pub lock_ex : ℕ
lock_ex = 2

abbrev pub lock_nb : ℕ
lock_nb = 4

abbrev pub lock_un : ℕ
lock_un = 8

abbrev pub einval : ℕ
einval = 22

abbrev pub eagain : ℕ
eagain = 11

abbrev pub eopnotsupp : ℕ
eopnotsupp = 95

pub record BackendFlock : Type 0 where
  pub handle : ℕ
  pub owner : ℕ
  pub typ : ℕ

abbrev pub FlockTable : Type 0
FlockTable = Map (List ℕ) (List BackendFlock)

-- `operation & LOCK_NB != 0`
unfoldable pub is_nonblocking : ℕ → Bool
is_nonblocking operation = (operation / lock_nb) % 2 == 1

-- `operation & !LOCK_NB`
unfoldable pub without_nonblocking : ℕ → ℕ
without_nonblocking operation = operation - lock_nb * ((operation / lock_nb) % 2)

unfoldable pub validate_flock_operation : ℕ → Result ℕ ℕ
validate_flock_operation operation =
    if without_nonblocking operation == lock_sh
    then ok lock_sh
    else if without_nonblocking operation == lock_ex
    then ok lock_ex
    else if without_nonblocking operation == lock_un
    then ok lock_un
    else err einval

unfoldable pub conflicts : BackendFlock → ℕ → ℕ → Bool
conflicts lock requester_owner typ =
    not (lock.owner == requester_owner) && (lock.typ == lock_ex || typ == lock_ex)

abbrev pub or_default : Option (List BackendFlock) → List BackendFlock
or_default none = []
or_default (some locks) = locks

unfoldable pub flocks_at : FlockTable → List ℕ → List BackendFlock
flocks_at table key = or_default (Map.get table key)

-- A key whose locks are all gone goes too.
abbrev pub put_or_remove : FlockTable → List ℕ → List BackendFlock → FlockTable
put_or_remove table key [] = Map.remove table key
put_or_remove table key (lock ∷ rest) = Map.insert table key (lock ∷ rest)

unfoldable pub unlock_owned : FlockTable → List ℕ → ℕ → FlockTable
unlock_owned table key owner = elim (Map.get table key) [
  | none ↦ table
  | some locks ↦ put_or_remove table key (retain (λ lock. not (lock.owner == owner)) locks)
]

unfoldable pub push : FlockTable → List ℕ → BackendFlock → FlockTable
push table key lock = Map.insert table key (flocks_at table key ++ lock ∷ [])

-- `flock` for a valid operation.
unfoldable pub flock_typ : FlockTable → List ℕ → ℕ → ℕ → Bool → ℕ → FlockTable × Result ℕ (Unit {0})
flock_typ table key handle owner nonblocking typ =
    if typ == lock_un
    then (unlock_owned table key owner, ok tt)
    else if any (λ lock. conflicts lock owner typ) (flocks_at table key)
    then (table, err (if nonblocking then eagain else eopnotsupp))
    else (
      push (unlock_owned table key owner) key
          (record { handle = handle; owner = owner; typ = typ }),
      ok tt,
    )

unfoldable pub flock : FlockTable → List ℕ → ℕ → ℕ → ℕ → FlockTable × Result ℕ (Unit {0})
flock table key handle owner operation = elim (validate_flock_operation operation) [
  | err e ↦ (table, err e)
  | ok typ ↦ flock_typ table key handle owner (is_nonblocking operation) typ
]

abbrev pub some_unless_empty : List BackendFlock → Option (List BackendFlock)
some_unless_empty [] = none
some_unless_empty (lock ∷ rest) = some (lock ∷ rest)

unfoldable pub release_handle : FlockTable → ℕ → FlockTable
release_handle table handle =
    Map.filter_map
      (λ key locks. some_unless_empty (retain (λ lock. not (lock.handle == handle)) locks)) table
