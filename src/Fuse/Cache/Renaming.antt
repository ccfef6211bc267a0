-- ===== src/Fuse/Cache/Renaming.antt =====
-- `rename` as a whole: the old subtree moves to the new path, what was there is gone, nothing else
-- changes, and the two directions still agree.
use fabric_fs.Prelude.{
  ok-injective, ℕ, ◌≡◌, refl, ◌∙◌, sym, Bool, true, false, ◌&&◌, not, Option, none, some, List, [],
  ◌∷◌, ◌===◌, if◌then◌else◌, bytes_eq, arith, Bool-cases, inl, inr, All, ok,
}
use fabric_fs.Prelude.Map
use fabric_fs.Prelude.Map.{Map}
use fabric_fs.Protocol.Path.{validate_rename_paths}
use fabric_fs.Fuse.Paths.{path_is_in_subtree}
use fabric_fs.Fuse.Cache.{
  PathCache, paths_in_subtree, remove_subtree_except, not_among, move_entries, rename,
}
use fabric_fs.Fuse.Cache.Consistent.{maps, lists, IsConsistent}
use fabric_fs.Fuse.Cache.Entries.{
  has_path, get-paths_in_subtree, has_path-paths_in_subtree, has_entry-paths_in_subtree,
  last_of-paths_in_subtree, has_path-not_among, has_entry-not_among,
}
use fabric_fs.Fuse.Cache.Removing.{maps-drop_entries, lists-drop_entries, maps-is_none}
use fabric_fs.Fuse.Cache.Moving.{
  origin, disjoint, below_old-origin, AllBelow, get-moves_outside, lists-moves_outside,
  get-moves_inside, lists-moves_inside,
}

All-remove :
    (P : List ℕ × ℕ → Type 0) (m : Map (List ℕ) ℕ) (p : List ℕ) → All P m → All P (Map.remove m p)
unfolding Map.remove
All-remove P [] p a = a
All-remove P ((q, i) ∷ m) p a = elim (Bool-cases (q === p)) [
  | inl same ↦ rw same (All-remove P m p a.1)
  | inr other ↦ rw other (a.0, All-remove P m p a.1)
]

All-cons_some :
    (P : List ℕ × ℕ → Type 0) (k : List ℕ) (o : Option ℕ) (m : Map (List ℕ) ℕ)
    → ((i : ℕ) → o ≡ some i → P (k, i))
    → All P m
    → All P (Map.cons_some k o m)
All-cons_some P k none m h a = a
All-cons_some P k (some i) m h a = (h i refl, a)

kept_below :
    (p : List ℕ) (i : ℕ) (path : List ℕ) (j : ℕ)
    → (if path_is_in_subtree p path then some i else none) ≡ some j
    → path_is_in_subtree p path ≡ true
kept_below p i path j e = ground arith

subtree-AllBelow :
    (path : List ℕ) (m : Map (List ℕ) ℕ)
    → All
        (λ (e : List ℕ × ℕ). path_is_in_subtree e.0 path ≡ true)
        (Map.filter_map
          (λ cached inode. if path_is_in_subtree cached path then some inode else none)
          m)
unfolding Map.filter_map
subtree-AllBelow path [] = tt
subtree-AllBelow path ((p, i) ∷ m) =
    All-cons_some (λ e. path_is_in_subtree e.0 path ≡ true) p
      (if path_is_in_subtree p path then some i else none) _ (kept_below p i path)
      (All-remove _ _ p (subtree-AllBelow path m))

module _ (c : PathCache) (old_path new_path : List ℕ)
    (valid : validate_rename_paths old_path new_path ≡ ok tt) where
  abbrev moved : List (List ℕ × ℕ)
  moved = paths_in_subtree c old_path

  abbrev cleared : PathCache
  cleared = remove_subtree_except c new_path moved

  abbrev after : PathCache
  after = move_entries cleared old_path new_path moved

  moved-AllBelow : AllBelow old_path new_path valid moved
  unfolding paths_in_subtree
  moved-AllBelow = subtree-AllBelow old_path c.path_to_inode

  rename-after : rename c old_path new_path ≡ ok after
  unfolding rename
  rename-after = rw valid

  maps-cleared :
      (q : List ℕ) (j : ℕ) → maps cleared q j ≡ (not (path_is_in_subtree q new_path) && maps c q j)
  unfolding remove_subtree_except
  maps-cleared q j = ground (
    arith,
    maps-drop_entries c (not_among moved (paths_in_subtree c new_path)) q j,
    has_path-not_among moved (paths_in_subtree c new_path) q,
    get-paths_in_subtree c old_path q,
    has_path-paths_in_subtree c new_path q,
    disjoint old_path new_path valid q,
    maps-is_none c q j,
  )

  lists-cleared :
      (q : List ℕ) (j : ℕ)
      → IsConsistent c
      → lists cleared q j ≡ (not (path_is_in_subtree q new_path) && lists c q j)
  unfolding remove_subtree_except
  lists-cleared q j k = ground (
    arith,
    lists-drop_entries c (not_among moved (paths_in_subtree c new_path)) q j,
    has_entry-not_among moved (paths_in_subtree c new_path) q j,
    get-paths_in_subtree c old_path q,
    has_entry-paths_in_subtree c new_path q j,
    disjoint old_path new_path valid q,
    k.agree q j,
  )

  -- What the cache holds of a path after the rename.
  abbrev pub renamed_maps : List ℕ → ℕ → Bool
  renamed_maps q j =
      if path_is_in_subtree q new_path
      then maps c (origin old_path new_path valid q) j
      else not (path_is_in_subtree q old_path) && maps c q j

  get-cleared_inside :
      (q : List ℕ) → path_is_in_subtree q new_path ≡ true → Map.get cleared.path_to_inode q ≡ none
  unfolding maps
  get-cleared_inside q inside = none_of_maps (Map.get cleared.path_to_inode q) refl
    where
      none_of_maps : (o : Option ℕ) → Map.get cleared.path_to_inode q ≡ o → o ≡ none
      none_of_maps none e = refl
      none_of_maps (some i) e = absurd (ground (arith, maps-cleared q i))

  maps-after : (q : List ℕ) (j : ℕ) → maps after q j ≡ renamed_maps q j
  maps-after q j = elim (Bool-cases (path_is_in_subtree q new_path)) [
    | inl inside ↦ rw inside (
        unfold maps in
        rw
          (
            get-moves_inside old_path new_path valid cleared moved q moved-AllBelow inside,
            get-cleared_inside q inside,
            last_of-paths_in_subtree c old_path (origin old_path new_path valid q),
            below_old-origin old_path new_path valid q inside,
          )
          refl)
    | inr outside ↦ rw outside (
        maps_outside outside
        ∙ ground
            (arith, maps-cleared q j, has_path-paths_in_subtree c old_path q, maps-is_none c q j))
  ]
    where
      maps_outside :
          path_is_in_subtree q new_path ≡ false
          → maps after q j ≡ (not (has_path moved q) && maps cleared q j)
      maps_outside outside =
          unfold maps in
          (rw (get-moves_outside old_path new_path valid cleared moved q moved-AllBelow outside)
            (ground arith))

  lists-after : (q : List ℕ) (j : ℕ) → IsConsistent c → lists after q j ≡ renamed_maps q j
  lists-after q j k = elim (Bool-cases (path_is_in_subtree q new_path)) [
    | inl inside ↦ rw inside (
        ground (
          arith,
          lists-moves_inside old_path new_path valid cleared moved q j moved-AllBelow inside,
          has_entry-paths_in_subtree c old_path (origin old_path new_path valid q) j,
          below_old-origin old_path new_path valid q inside,
          lists-cleared q j k,
        ))
    | inr outside ↦ rw outside (
        ground (
          arith,
          lists-moves_outside old_path new_path valid cleared moved q j moved-AllBelow outside,
          has_entry-paths_in_subtree c old_path q j,
          lists-cleared q j k,
          k.agree q j,
        ))
  ]

  -- After a rename of valid paths a path below the new one is cached for the inode that its origin
  -- below the old one was cached for and for no other, no path below the old one is cached, and the
  -- rest is as it was.
  pub maps-rename :
      (c' : PathCache) (q : List ℕ) (j : ℕ)
      → (rename c old_path new_path ≡ ok c')
      → maps c' q j ≡ renamed_maps q j
  maps-rename c' q j e = rw same (maps-after q j)
    where
      same : c' ≡ after
      same = ok-injective (sym e ∙ rename-after)

  -- A rename of valid paths succeeds, and the two directions of the cache agree after it if they did
  -- before.
  pub rename-IsConsistent :
      IsConsistent c → (c' : PathCache) × (rename c old_path new_path ≡ ok c') × IsConsistent c'
  rename-IsConsistent k =
      (after, rename-after, record { agree = λ q j. lists-after q j k ∙ sym (maps-after q j) })
