-- ===== src/Server/Inodes.antt =====
-- fabricfs-server/src/service/inode_map.rs: the inode numbers that the service gives to paths. A path is
-- a list of bytes.
pub mod Fresh
pub mod Kept
mod Tests
use fabric_fs.Prelude.{
  ℕ, ◌+◌, max, Bool, true, false, not, ◌&&◌, ◌||◌, ◌==◌, ◌===◌, bytes_eq, pair_eq, Option, none,
  some, List, [], ◌∷◌, ◌++◌, any, is_empty, saturating_add, if◌then◌else◌,
}
use fabric_fs.Prelude.Map
use fabric_fs.Prelude.Map.{Map}
use fabric_fs.Protocol.Path.{root, slash, strip_prefix, starts_with_slash}

-- The numbers of the device and of the file.
abbrev pub FileIdentity : Type 0
FileIdentity = ℕ × ℕ

pub record InodeMap : Type 0 where
  pub by_path : Map (List ℕ) ℕ
  pub identity_by_path : Map (List ℕ) FileIdentity
  pub by_identity : Map FileIdentity ℕ
  pub next_inode : ℕ

unfoldable pub new : InodeMap
new = record { by_path = (root, 1) ∷ []; identity_by_path = []; by_identity = []; next_inode = 2 }

-- `str::trim_matches('/')`
abbrev pub trim_start : List ℕ → List ℕ
trim_start [] = []
trim_start (c ∷ s) = let rest = trim_start s in if c == slash then rest else c ∷ s

abbrev pub trim_end : List ℕ → List ℕ
trim_end [] = []
trim_end (c ∷ s) = let rest = trim_end s in if c == slash && is_empty rest then [] else c ∷ rest

unfoldable pub normalize_path : List ℕ → List ℕ
normalize_path path = if path === root then root else slash ∷ trim_end (trim_start path)

unfoldable pub allocate_inode : InodeMap → InodeMap × ℕ
allocate_inode m = (record m { next_inode = max (saturating_add m.next_inode 1) 2 }, m.next_inode)

-- The identity that a path had goes if no path has it any more.
unfoldable pub forget_previous :
    Map (List ℕ) FileIdentity
    → Map FileIdentity ℕ
    → FileIdentity
    → Option FileIdentity
    → Map FileIdentity ℕ
forget_previous identities by_identity identity none = by_identity
forget_previous identities by_identity identity (some previous) =
    if not (previous === identity) && not (any (λ cached. cached.1 === previous) identities)
    then Map.remove by_identity previous
    else by_identity

unfoldable pub set_path_identity : InodeMap → List ℕ → ℕ → FileIdentity → InodeMap
set_path_identity m path inode identity =
    let identities = Map.insert m.identity_by_path path identity in
    record m {
      identity_by_path = identities;
      by_identity =
          Map.insert
            (forget_previous identities m.by_identity identity (Map.get m.identity_by_path path))
            identity inode;
    }

abbrev pub at_path : InodeMap → List ℕ → ℕ → InodeMap
at_path m path inode = record m { by_path = Map.insert m.by_path path inode }

-- The inode of a path that has an identity, by what is known of the path and of the identity.
abbrev pub identified : InodeMap → List ℕ → FileIdentity → Option ℕ → Option ℕ → InodeMap × ℕ
identified m path identity (some inode) known = (set_path_identity m path inode identity, inode)
identified m path identity none (some inode) =
    (set_path_identity (at_path m path inode) path inode identity, inode)
identified m path identity none none = (
  set_path_identity (at_path (allocate_inode m).0 path (allocate_inode m).1) path
      (allocate_inode m).1 identity,
  (allocate_inode m).1,
)

abbrev pub unidentified : InodeMap → List ℕ → Option ℕ → InodeMap × ℕ
unidentified m path (some inode) = (m, inode)
unidentified m path none =
    (at_path (allocate_inode m).0 path (allocate_inode m).1, (allocate_inode m).1)

abbrev pub root_identity : InodeMap → Option FileIdentity → InodeMap
root_identity m none = m
root_identity m (some identity) = set_path_identity m root 1 identity

abbrev pub known_inode : InodeMap → Option FileIdentity → Option ℕ
known_inode m none = none
known_inode m (some identity) = Map.get m.by_identity identity

abbrev pub inode_for_normal : InodeMap → List ℕ → Option FileIdentity → InodeMap × ℕ
inode_for_normal m path none = unidentified m path (Map.get m.by_path path)
inode_for_normal m path (some identity) =
    identified m path identity (Map.get m.by_path path) (Map.get m.by_identity identity)

unfoldable pub inode_for : InodeMap → List ℕ → Option FileIdentity → InodeMap × ℕ
inode_for m path identity =
    if normalize_path path === root
    then (root_identity m identity, 1)
    else inode_for_normal m (normalize_path path) identity

abbrev pub below_slash : Option (List ℕ) → Bool
below_slash none = false
below_slash (some suffix) = starts_with_slash suffix

abbrev pub is_removed : List ℕ → List ℕ → Bool
is_removed path cached = cached === path || below_slash (strip_prefix path cached)

abbrev pub retain_live_identities :
    Map (List ℕ) FileIdentity → Map FileIdentity ℕ → Map FileIdentity ℕ
retain_live_identities identities by_identity =
    Map.filter_map
      (λ identity inode.
        if any (λ cached. cached.1 === identity) identities then some inode else none)
      by_identity

abbrev pub is_cached : Option ℕ → Bool
is_cached none = false
is_cached (some inode) = true

abbrev pub remaining_identities :
    Map (List ℕ) ℕ → Map (List ℕ) FileIdentity → List ℕ → Map (List ℕ) FileIdentity
remaining_identities by_path identities path =
    Map.filter_map
      (λ cached identity.
        if is_removed path cached && is_cached (Map.get by_path cached)
        then none
        else some identity)
      identities

abbrev pub remove_normal : InodeMap → List ℕ → InodeMap
remove_normal m path =
    let identities = remaining_identities m.by_path m.identity_by_path path in
    record m {
      by_path =
          Map.insert
            (Map.filter_map (λ cached inode. if is_removed path cached then none else some inode)
              m.by_path)
            root 1;
      identity_by_path = identities;
      by_identity = retain_live_identities identities m.by_identity;
    }

unfoldable pub remove_path : InodeMap → List ℕ → InodeMap
remove_path m path = remove_normal m (normalize_path path)

-- What a path has after the old one, where it moves.
abbrev pub moved_suffix : Option (List ℕ) → Option (List ℕ)
moved_suffix none = none
moved_suffix (some suffix) =
    if is_empty suffix || starts_with_slash suffix then some suffix else none

abbrev pub if_moved : Option (List ℕ) → ℕ → Option ℕ
if_moved none inode = none
if_moved (some suffix) inode = some inode

abbrev pub or_empty : Option (List ℕ) → List ℕ
or_empty none = []
or_empty (some suffix) = suffix

abbrev pub put_identity :
    Map (List ℕ) FileIdentity → List ℕ → Option FileIdentity → Map (List ℕ) FileIdentity
put_identity identities path none = identities
put_identity identities path (some identity) = Map.insert identities path identity

abbrev pub move_path : InodeMap → List ℕ → List ℕ → ℕ → InodeMap
move_path m old new_one inode = record m {
  by_path = Map.insert (Map.remove m.by_path old) new_one inode;
  identity_by_path =
      put_identity (Map.remove m.identity_by_path old) new_one (Map.get m.identity_by_path old);
}

unfoldable pub move_paths : InodeMap → List ℕ → List ℕ → List (List ℕ × ℕ) → InodeMap
move_paths m old_path new_path [] = m
move_paths m old_path new_path ((path, inode) ∷ rest) =
    move_paths
      (move_path m path (new_path ++ or_empty (moved_suffix (strip_prefix old_path path))) inode)
      old_path new_path rest

abbrev pub moved_paths : InodeMap → List ℕ → List (List ℕ × ℕ)
moved_paths m old_path =
    Map.filter_map (λ path inode. if_moved (moved_suffix (strip_prefix old_path path)) inode)
      m.by_path

abbrev pub rename_normal : InodeMap → List ℕ → List ℕ → InodeMap
rename_normal m old_path new_path =
    move_paths (remove_path m new_path) old_path new_path
      (moved_paths (remove_path m new_path) old_path)

unfoldable pub rename_path : InodeMap → List ℕ → List ℕ → InodeMap
rename_path m old_path new_path =
    rename_normal m (normalize_path old_path) (normalize_path new_path)

-- The calls of the service, and runs of them.
pub data InodeCall : Type 0 where
  ask_inode : List ℕ → Option FileIdentity → InodeCall
  move_tree : List ℕ → List ℕ → InodeCall
  drop_tree : List ℕ → InodeCall

unfoldable pub run_call : InodeCall → InodeMap → InodeMap
run_call (InodeCall.ask_inode path identity) m = (inode_for m path identity).0
run_call (InodeCall.move_tree old_path new_path) m = rename_path m old_path new_path
run_call (InodeCall.drop_tree path) m = remove_path m path

unfoldable pub run_calls : List InodeCall → InodeMap → InodeMap
run_calls [] m = m
run_calls (c ∷ rest) m = run_calls rest (run_call c m)
