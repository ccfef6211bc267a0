-- ===== src/Fuse/Cache/Status.antt =====
-- fs-fuse/src/cache.rs: only `poison` and a reset change whether the cache is poisoned.
use fabric_fs.Prelude.{
  ℕ, ◌≡◌, refl, ◌∙◌, Option, none, some, List, [], ◌∷◌, ◌==◌, ◌===◌, ◌||◌, if◌then◌else◌, bytes_eq,
  nat_eq, is_empty, ok, Bool-cases, inl, inr, arith,
}
use fabric_fs.Prelude.Map
use fabric_fs.Protocol.Path.{root, validate_rename_paths}
use fabric_fs.Fuse.Cache.{
  PathCache, remove_inode_path, displace, link, insert, add_lookup, insert_lookup, drop_entry,
  drop_entries, paths_in_subtree, remove_path, not_among, remove_subtree_except,
  detach_inode_path_for_rename, move_entry, move_entries, rename,
}

remove_inode_path-poisoned :
    (c : PathCache) (inode : ℕ) (path : List ℕ)
    → (remove_inode_path c inode path).poisoned ≡ c.poisoned
unfolding remove_inode_path
remove_inode_path-poisoned c inode path = ground arith

displace-poisoned :
    (c : PathCache) (path : List ℕ) (inode : ℕ) → (displace c path inode).poisoned ≡ c.poisoned
unfolding displace
displace-poisoned c path inode = go (Map.get c.path_to_inode path)
  where
    go :
        (o : Option ℕ)
        → (elim o as (λ _. PathCache) [
          | none ↦ c
          | some old_inode ↦ if old_inode == inode then c else remove_inode_path c old_inode path
        ]).poisoned
          ≡ c.poisoned
    go none = refl
    go (some old_inode) = elim (Bool-cases (old_inode == inode)) [
      | inl same ↦ rw same refl
      | inr other ↦ rw other (remove_inode_path-poisoned c old_inode path)
    ]

pub insert-poisoned :
    (c : PathCache) (path : List ℕ) (inode : ℕ) → (insert c path inode).poisoned ≡ c.poisoned
unfolding insert link
insert-poisoned c path inode = elim (Bool-cases (inode == 0)) [
  | inl zero ↦ rw zero refl
  | inr known ↦ rw known (displace-poisoned c path inode)
]

pub insert_lookup-poisoned :
    (c : PathCache) (path : List ℕ) (inode count : ℕ)
    → (insert_lookup c path inode count).poisoned ≡ c.poisoned
unfolding insert_lookup add_lookup
insert_lookup-poisoned c path inode count = ground (arith, insert-poisoned c path inode)

drop_entries-poisoned :
    (c : PathCache) (entries : List (List ℕ × ℕ)) → (drop_entries c entries).poisoned ≡ c.poisoned
unfolding drop_entries drop_entry
drop_entries-poisoned c [] = refl
drop_entries-poisoned c ((path, inode) ∷ rest) =
    drop_entries-poisoned (drop_entry c path inode) rest
    ∙ remove_inode_path-poisoned (record c { path_to_inode = Map.remove c.path_to_inode path })
        inode path

pub remove_path-poisoned :
    (c : PathCache) (path : List ℕ) → (remove_path c path).poisoned ≡ c.poisoned
unfolding remove_path
remove_path-poisoned c path = elim (Bool-cases (is_empty path || path === root)) [
  | inl nothing ↦ rw nothing refl
  | inr below ↦ rw below (drop_entries-poisoned c (paths_in_subtree c path))
]

detach-poisoned :
    (c : PathCache) (inode : ℕ) (path : List ℕ)
    → (detach_inode_path_for_rename c inode path).poisoned ≡ c.poisoned
unfolding detach_inode_path_for_rename
detach-poisoned c inode path = ground arith

move_entries-poisoned :
    (c : PathCache) (old_path new_path : List ℕ) (entries : List (List ℕ × ℕ))
    → (move_entries c old_path new_path entries).poisoned ≡ c.poisoned
unfolding move_entries move_entry link
move_entries-poisoned c old_path new_path [] = refl
move_entries-poisoned c old_path new_path ((path, inode) ∷ rest) =
    move_entries-poisoned (move_entry c old_path new_path path inode) old_path new_path rest
    ∙ detach-poisoned (record c { path_to_inode = Map.remove c.path_to_inode path }) inode path

-- A rename between disjoint subtrees succeeds, and poisons nothing.
pub rename-poisoned :
    (c : PathCache) (old_path new_path : List ℕ)
    → validate_rename_paths old_path new_path ≡ ok tt
    → (after : PathCache) × (rename c old_path new_path ≡ ok after) × (after.poisoned ≡ c.poisoned)
unfolding rename remove_subtree_except
rename-poisoned c old_path new_path h =
    let moved = paths_in_subtree c old_path in
    let removed = remove_subtree_except c new_path moved in
    (
      move_entries removed old_path new_path moved,
      rw h refl,
      move_entries-poisoned removed old_path new_path moved
          ∙ drop_entries-poisoned c (not_among moved (paths_in_subtree c new_path)),
    )
