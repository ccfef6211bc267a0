-- ===== src/Fuse/Cache.antt =====
-- fs-fuse/src/cache.rs, `PathCache`: the paths of the inodes that the kernel knows, in both
-- directions, the kernel's lookup counts, and the sequence number of the last invalidation.
pub mod Consistent
pub mod Entries
pub mod Removing
pub mod Moving
pub mod Renaming
pub mod Status
use fabric_fs.Prelude.{
  ℕ, ◌+◌, ◌-◌, ◌≡◌, Bool, true, false, ◌&&◌, ◌||◌, not, Option, none, some, List, [], ◌∷◌, ◌++◌,
  ltb, ◌==◌, ◌===◌, if◌then◌else◌, bytes_eq, nat_eq, is_empty, Result, ok, err, saturating_add,
  ◌>>=◌, ◌>>◌, length, String,
}
use fabric_fs.Prelude.Map
use fabric_fs.Prelude.Map.{Map}
use fabric_fs.Protocol.Error.{ProtocolError}
use fabric_fs.Protocol.Errno.{Errno, stale, invalid_argument}
use fabric_fs.Protocol.Operation.{Operation}
use fabric_fs.Protocol.Path.{root, validate_rename_paths}
use fabric_fs.Fuse.PathSet
use fabric_fs.Fuse.Paths.{
  path_is_in_subtree, subtree_suffix, parent_path, valid_child_name, join_child_path,
}

pub record PathCache : Type 0 where
  pub path_to_inode : Map (List ℕ) ℕ
  pub inode_to_paths : Map ℕ (List (List ℕ))
  pub lookup_counts : Map ℕ ℕ
  pub poisoned : Bool
  pub last_sequence : ℕ

-- FuseError, with the protocol's message where there is one.
pub data FuseError : Type 0 where
  stale_cache : FuseError
  invalid_child_name : FuseError
  empty_namespace : FuseError
  protocol : ProtocolError → FuseError
  protocol_text : String → FuseError
  unexpected_payload : Operation → FuseError
  response : Errno → String → FuseError
  transport : Errno → String → FuseError

-- `FuseError::errno`
unfoldable pub fuse_errno : FuseError → Errno
fuse_errno (response e message) = e
fuse_errno (transport e message) = e
fuse_errno stale_cache = stale
fuse_errno _ = invalid_argument

-- `entry(inode).or_default()`
abbrev pub or_default : Option (List (List ℕ)) → List (List ℕ)
or_default none = []
or_default (some paths) = paths

unfoldable pub paths_at : PathCache → ℕ → List (List ℕ)
paths_at c inode = or_default (Map.get c.inode_to_paths inode)

unfoldable pub remove_inode_path : PathCache → ℕ → List ℕ → PathCache
remove_inode_path c inode path = elim (Map.get c.inode_to_paths inode) [
  | none ↦ record c { lookup_counts = Map.remove c.lookup_counts inode }
  | some paths ↦
      if is_empty (PathSet.remove path paths)
      then record c {
        inode_to_paths = Map.remove c.inode_to_paths inode;
        lookup_counts = Map.remove c.lookup_counts inode;
      }
      else record c {
        inode_to_paths = Map.insert c.inode_to_paths inode (PathSet.remove path paths);
      }
]

-- The path leaves the inode that it was cached for, if that is another one.
unfoldable pub displace : PathCache → List ℕ → ℕ → PathCache
displace c path inode = elim (Map.get c.path_to_inode path) [
  | none ↦ c
  | some old_inode ↦ if old_inode == inode then c else remove_inode_path c old_inode path
]

-- The two insertions at the end of `insert`, and of each round of `rename`.
unfoldable pub link : PathCache → List ℕ → ℕ → PathCache
link c path inode = record c {
  path_to_inode = Map.insert c.path_to_inode path inode;
  inode_to_paths = Map.insert c.inode_to_paths inode (PathSet.insert path (paths_at c inode));
}

unfoldable pub insert : PathCache → List ℕ → ℕ → PathCache
insert c path inode = if inode == 0 then c else link (displace c path inode) path inode

abbrev pub emptied : Bool → ℕ → PathCache
emptied poisoned last_sequence = record {
  path_to_inode = [];
  inode_to_paths = [];
  lookup_counts = [];
  poisoned = poisoned;
  last_sequence = last_sequence;
}

unfoldable pub new : PathCache
new = insert (emptied false 0) root 1

abbrev pub is_none {ℓ} : {A : Type ℓ} → Option A → Bool
is_none none = true
is_none (some a) = false

abbrev pub count_or_zero : Option ℕ → ℕ
count_or_zero none = 0
count_or_zero (some n) = n

unfoldable pub add_lookup : PathCache → ℕ → ℕ → PathCache
add_lookup c inode count =
    if inode == 0 || inode == 1 || count == 0 || is_none (Map.get c.inode_to_paths inode)
    then c
    else record c {
      lookup_counts =
          Map.insert c.lookup_counts inode
            (saturating_add (count_or_zero (Map.get c.lookup_counts inode)) count);
    }

unfoldable pub insert_lookup : PathCache → List ℕ → ℕ → ℕ → PathCache
insert_lookup c path inode count = add_lookup (insert c path inode) inode count

-- The loop of `remove_inode` over the paths of the inode.
unfoldable pub remove_paths : Map (List ℕ) ℕ → List (List ℕ) → Map (List ℕ) ℕ
remove_paths m [] = m
remove_paths m (path ∷ rest) = remove_paths (Map.remove m path) rest

unfoldable pub remove_inode : PathCache → ℕ → PathCache
remove_inode c inode = if inode == 1 then c else record c {
  path_to_inode = remove_paths c.path_to_inode (paths_at c inode);
  inode_to_paths = Map.remove c.inode_to_paths inode;
  lookup_counts = Map.remove c.lookup_counts inode;
}

unfoldable pub forget : PathCache → ℕ → ℕ → PathCache
forget c inode nlookup =
    if inode == 1 || nlookup == 0 then c else elim (Map.get c.lookup_counts inode) [
      | none ↦ remove_inode c inode
      | some count ↦
          if ltb nlookup count
          then record c { lookup_counts = Map.insert c.lookup_counts inode (count - nlookup) }
          else remove_inode (record c { lookup_counts = Map.remove c.lookup_counts inode }) inode
    ]

-- The cached entries below a path, each a path with its inode.
unfoldable pub paths_in_subtree : PathCache → List ℕ → List (List ℕ × ℕ)
paths_in_subtree c path =
    Map.filter_map (λ cached inode. if path_is_in_subtree cached path then some inode else none)
      c.path_to_inode

unfoldable pub drop_entry : PathCache → List ℕ → ℕ → PathCache
drop_entry c path inode =
    remove_inode_path (record c { path_to_inode = Map.remove c.path_to_inode path }) inode path

unfoldable pub drop_entries : PathCache → List (List ℕ × ℕ) → PathCache
drop_entries c [] = c
drop_entries c ((path, inode) ∷ rest) = drop_entries (drop_entry c path inode) rest

unfoldable pub remove_path : PathCache → List ℕ → PathCache
remove_path c path =
    if is_empty path || path === root then c else drop_entries c (paths_in_subtree c path)

-- The entries that `remove_subtree_except` does not skip.
unfoldable pub not_among : List (List ℕ × ℕ) → List (List ℕ × ℕ) → List (List ℕ × ℕ)
not_among except [] = []
not_among except ((path, inode) ∷ rest) =
    let others = not_among except rest in
    if is_none (Map.get except path) then (path, inode) ∷ others else others

unfoldable pub remove_subtree_except : PathCache → List ℕ → List (List ℕ × ℕ) → PathCache
remove_subtree_except c path except = drop_entries c (not_among except (paths_in_subtree c path))

unfoldable pub detach_inode_path_for_rename : PathCache → ℕ → List ℕ → PathCache
detach_inode_path_for_rename c inode path = elim (Map.get c.inode_to_paths inode) [
  | none ↦ c
  | some paths ↦ record c {
    inode_to_paths =
        if is_empty (PathSet.remove path paths)
        then Map.remove c.inode_to_paths inode
        else Map.insert c.inode_to_paths inode (PathSet.remove path paths);
  }
]

-- One round of the loop of `rename`.
unfoldable pub move_entry : PathCache → List ℕ → List ℕ → List ℕ → ℕ → PathCache
move_entry c old_path new_path path inode =
    let removed = record c { path_to_inode = Map.remove c.path_to_inode path } in
    link (detach_inode_path_for_rename removed inode path)
      (new_path ++ subtree_suffix path old_path) inode

unfoldable pub move_entries : PathCache → List ℕ → List ℕ → List (List ℕ × ℕ) → PathCache
move_entries c old_path new_path [] = c
move_entries c old_path new_path ((path, inode) ∷ rest) =
    move_entries (move_entry c old_path new_path path inode) old_path new_path rest

unfoldable pub rename : PathCache → List ℕ → List ℕ → Result ProtocolError PathCache
rename c old_path new_path = do
  validate_rename_paths old_path new_path
  let moved = paths_in_subtree c old_path
  ok (move_entries (remove_subtree_except c new_path moved) old_path new_path moved)

unfoldable pub poison : PathCache → PathCache
poison c = insert (emptied true c.last_sequence) root 1

unfoldable pub reset_with_sequence : ℕ → PathCache
reset_with_sequence sequence = insert (emptied false sequence) root 1

abbrev pub is_root_inode : Option ℕ → Bool
is_root_inode none = false
is_root_inode (some inode) = inode == 1

abbrev pub only_root : Option (List (List ℕ)) → Bool
only_root none = false
only_root (some paths) = length paths == 1 && PathSet.member root paths

unfoldable pub can_accept_noncontiguous_sequence : PathCache → Bool
can_accept_noncontiguous_sequence c =
    not c.poisoned
    && length c.path_to_inode == 1
    && is_root_inode (Map.get c.path_to_inode root)
    && length c.inode_to_paths == 1
    && only_root (Map.get c.inode_to_paths 1)
    && is_empty c.lookup_counts

unfoldable pub representative_path : PathCache → ℕ → Option (List ℕ)
representative_path c inode = PathSet.first (paths_at c inode)

abbrev pub or_stale : {A : Type 0} → Option A → Result FuseError A
or_stale none = err stale_cache
or_stale (some a) = ok a

unfoldable pub path_for_inode : PathCache → ℕ → Result FuseError (List ℕ)
path_for_inode c inode =
    if c.poisoned then err stale_cache else or_stale (representative_path c inode)

unfoldable pub child_path : PathCache → ℕ → List ℕ → Result FuseError (List ℕ)
child_path c parent name =
    if valid_child_name name
    then (do parent_path ← path_for_inode c parent; ok (join_child_path parent_path name))
    else err invalid_child_name

unfoldable pub parent_inode_for_path : PathCache → List ℕ → Result FuseError ℕ
parent_inode_for_path c path =
    if c.poisoned
    then err stale_cache
    else if path === root
    then ok 1
    else or_stale (Map.get c.path_to_inode (parent_path path))

unfoldable pub parent_inode : PathCache → ℕ → Result FuseError ℕ
parent_inode c inode = do path ← path_for_inode c inode; parent_inode_for_path c path
