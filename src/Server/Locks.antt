-- ===== src/Server/Locks.antt =====
-- fabricfs-server/src/server/locks.rs: POSIX byte-range locks.
-- A table maps the key of a file to its locks. A method that mutates the table returns the new
-- table beside its result; a `u64` is a number up to `u64_max`, and a lock type or an error code is
-- the number that libc gives it.
pub mod Cutting
pub mod Sorting
pub mod Merging
pub mod Coverage
pub mod Setting
pub mod Accepting
pub mod Exclusion
pub mod Releasing
mod Tests
use fabric_fs.Prelude.{
  ℕ, ◌+◌, ◌-◌, ◌≡◌, Bool, true, false, ◌&&◌, ◌||◌, not, Option, none, some, List, [], ◌∷◌, ◌++◌,
  ltb, leb, ◌==◌, if◌then◌else◌, u64_max, saturating_add, max, Result, ok, err, any, find, retain,
  is_empty, bytes_eq,
}
use fabric_fs.Prelude.Map
use fabric_fs.Prelude.Map.{Map}

-- libc::F_RDLCK, F_WRLCK, F_UNLCK; EINVAL, EAGAIN
abbrev pub f_rdlck : ℕ
f_rdlck = 0

abbrev pub f_wrlck : ℕ
f_wrlck = 1

abbrev pub f_unlck : ℕ
f_unlck = 2

abbrev pub einval : ℕ
einval = 22

abbrev pub eagain : ℕ
eagain = 11

pub record BackendLock : Type 0 where
  pub handle : ℕ
  pub owner : ℕ
  pub start : ℕ
  pub end : ℕ
  pub typ : ℕ
  pub pid : ℕ

pub record FileLock : Type 0 where
  pub start : ℕ
  pub end : ℕ
  pub typ : ℕ
  pub pid : ℕ

-- The keys are texts, as lists of bytes.
abbrev pub LockTable : Type 0
LockTable = Map (List ℕ) (List BackendLock)

unfoldable pub lock_required_access : ℕ → Result ℕ ℕ
lock_required_access typ =
    if typ == f_rdlck
    then ok 4
    else if typ == f_wrlck
    then ok 2
    else if typ == f_unlck
    then ok 0
    else err einval

unfoldable pub validate_lock_request : ℕ → ℕ → ℕ → Result ℕ (Unit {0})
unfolding lock_required_access
validate_lock_request start end typ =
    if ltb end start
    then err einval
    else elim (lock_required_access typ) [ ok _ ↦ ok tt | err e ↦ err e ]

unfoldable pub ranges_overlap : ℕ → ℕ → ℕ → ℕ → Bool
ranges_overlap left_start left_end right_start right_end =
    leb left_start right_end && leb right_start left_end

unfoldable pub conflicts : BackendLock → ℕ → ℕ → ℕ → ℕ → Bool
unfolding ranges_overlap
conflicts lock requester_owner start end typ =
    not (lock.owner == requester_owner)
    && ranges_overlap lock.start lock.end start end
    && (lock.typ == f_wrlck || typ == f_wrlck)

-- The order of the sort key (owner, typ, pid, handle, start).
unfoldable pub lex : ℕ → ℕ → Bool → Bool
lex a b rest = if ltb a b then true else if ltb b a then false else rest

unfoldable pub key_le : BackendLock → BackendLock → Bool
key_le x y =
    lex x.owner y.owner
      (lex x.typ y.typ (lex x.pid y.pid (lex x.handle y.handle (leb x.start y.start))))

-- `sort_by_key` is stable: an element stays before a later one of an equal key.
unfoldable pub insert_sorted : BackendLock → List BackendLock → List BackendLock
insert_sorted x [] = x ∷ []
insert_sorted x (y ∷ ys) =
    let later = y ∷ insert_sorted x ys in if key_le x y then x ∷ y ∷ ys else later

unfoldable pub sort_by_key : List BackendLock → List BackendLock
sort_by_key [] = []
sort_by_key (x ∷ xs) = insert_sorted x (sort_by_key xs)

unfoldable pub adjacent : BackendLock → BackendLock → Bool
adjacent last lock = last.end == u64_max || leb lock.start (saturating_add last.end 1)

unfoldable pub same_holder : BackendLock → BackendLock → Bool
same_holder last lock =
    last.owner == lock.owner
    && last.typ == lock.typ
    && last.pid == lock.pid
    && last.handle == lock.handle

-- The loop of `merge_path_locks` over the sorted locks, with the last lock that was pushed.
unfoldable pub merge_into : BackendLock → List BackendLock → List BackendLock
merge_into last [] = last ∷ []
merge_into last (lock ∷ rest) =
    let joined = merge_into (record last { end = max last.end lock.end }) rest in
    let pushed = last ∷ merge_into lock rest in
    if same_holder last lock && adjacent last lock then joined else pushed

abbrev pub merge_sorted : List BackendLock → List BackendLock
merge_sorted [] = []
merge_sorted (lock ∷ rest) = merge_into lock rest

unfoldable pub merge_path_locks : List BackendLock → List BackendLock
merge_path_locks locks = merge_sorted (sort_by_key locks)

-- What `unlock_owned_range` retains of one lock.
unfoldable pub cut : ℕ → ℕ → ℕ → BackendLock → List BackendLock
unfolding ranges_overlap
cut owner start end lock =
    if not (lock.owner == owner) || not (ranges_overlap lock.start lock.end start end)
    then lock ∷ []
    else (if ltb lock.start start then record lock { end = start - 1 } ∷ [] else [])
      ++ (if ltb end lock.end then record lock { start = end + 1 } ∷ [] else [])

unfoldable pub cut_all : ℕ → ℕ → ℕ → List BackendLock → List BackendLock
cut_all owner start end [] = []
cut_all owner start end (lock ∷ rest) = cut owner start end lock ++ cut_all owner start end rest

-- A key whose last lock goes is removed.
abbrev pub put_or_remove : LockTable → List ℕ → List BackendLock → LockTable
put_or_remove table key [] = Map.remove table key
put_or_remove table key (lock ∷ rest) = Map.insert table key (lock ∷ rest)

unfoldable pub unlock_owned_range : LockTable → List ℕ → ℕ → ℕ → ℕ → LockTable
unlock_owned_range table key owner start end = elim (Map.get table key) [
  | none ↦ table
  | some locks ↦ put_or_remove table key (merge_path_locks (cut_all owner start end locks))
]

-- `entry(key).or_default()` gives the locks of a key, none for a key that is not there.
abbrev pub or_default : Option (List BackendLock) → List BackendLock
or_default none = []
or_default (some locks) = locks

unfoldable pub locks_at : LockTable → List ℕ → List BackendLock
locks_at table key = or_default (Map.get table key)

abbrev pub to_file_lock : BackendLock → FileLock
to_file_lock lock = record { start = lock.start; end = lock.end; typ = lock.typ; pid = lock.pid }

abbrev pub map_file_lock : Option BackendLock → Option FileLock
map_file_lock none = none
map_file_lock (some lock) = some (to_file_lock lock)

unfoldable pub getlk : LockTable → List ℕ → ℕ → ℕ → ℕ → ℕ → Result ℕ (Option FileLock)
getlk table key owner start end typ = elim (validate_lock_request start end typ) [
  | err e ↦ err e
  | ok _ ↦
      if typ == f_unlck
      then ok none
      else ok
          (map_file_lock (find (λ lock. conflicts lock owner start end typ) (locks_at table key)))
]

unfoldable pub setlk : LockTable → List ℕ → ℕ → ℕ → ℕ → ℕ → ℕ → ℕ → LockTable × Result ℕ (Unit {0})
setlk table key handle owner start end typ pid = elim (validate_lock_request start end typ) [
  | err e ↦ (table, err e)
  | ok _ ↦
      if typ == f_unlck
      then (unlock_owned_range table key owner start end, ok tt)
      else if any (λ lock. conflicts lock owner start end typ) (locks_at table key)
      then (table, err eagain)
      else let unlocked = unlock_owned_range table key owner start end in
        let lock : BackendLock = record {
          handle = handle;
          owner = owner;
          start = start;
          end = end;
          typ = typ;
          pid = pid;
        } in
        (Map.insert unlocked key (merge_path_locks (locks_at unlocked key ++ lock ∷ [])), ok tt)
]

-- `retain` over the table: a key whose locks are all gone goes too.
abbrev pub some_unless_empty : List BackendLock → Option (List BackendLock)
some_unless_empty [] = none
some_unless_empty (lock ∷ rest) = some (lock ∷ rest)

unfoldable pub release_handle : LockTable → ℕ → LockTable
release_handle table handle =
    Map.filter_map
      (λ key locks. some_unless_empty (retain (λ lock. not (lock.handle == handle)) locks)) table

unfoldable pub release_owner : LockTable → List ℕ → ℕ → LockTable
release_owner table key owner = elim (Map.get table key) [
  | none ↦ table
  | some locks ↦ put_or_remove table key (retain (λ lock. not (lock.owner == owner)) locks)
]
