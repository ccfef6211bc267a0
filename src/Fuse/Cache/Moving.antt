-- ===== src/Fuse/Cache/Moving.antt =====
-- The loop of `rename`: what one round and all rounds do to the two directions of the cache.
use fabric_fs.Prelude.{
  ℕ, ◌≡◌, refl, ◌∙◌, ap, sym, Bool, true, false, ◌&&◌, ◌||◌, not, none, some, List, [], ◌∷◌, ◌++◌,
  ◌==◌, ◌===◌, if◌then◌else◌, bytes_eq, nat_eq, arith, is_empty, Bool-cases, Option-cases, inl, inr,
  All, ok,
}
use fabric_fs.Prelude.Eq.{bytes_beq_iff}
use fabric_fs.Prelude.Map
use fabric_fs.Prelude.Map.{Map}
use fabric_fs.Protocol.Path.{
  validate_rename_paths, validate_path_value, validate_non_root_path_value,
}
use fabric_fs.Protocol.Path.Prefix.{suffix-in_subtree, in_subtree-append, strip_prefix-append}
use fabric_fs.Protocol.Path.Subtree.{rename-disjoint}
use fabric_fs.Fuse.PathSet
use fabric_fs.Fuse.Paths.{path_is_in_subtree, subtree_suffix}
use fabric_fs.Fuse.Cache.{
  PathCache, paths_at, link, detach_inode_path_for_rename, move_entry, move_entries,
}
use fabric_fs.Fuse.Cache.Consistent.{lists, lists-link, paths_at-insert, paths_at-remove}
use fabric_fs.Fuse.Cache.Entries.{has_path, has_entry, last_of}

lists-detach :
    (c : PathCache) (inode : ℕ) (path q : List ℕ) (j : ℕ)
    → lists (detach_inode_path_for_rename c inode path) q j
      ≡ (not (inode == j && q === path) && lists c q j)
unfolding lists paths_at detach_inode_path_for_rename PathSet.member
lists-detach c inode path q j = elim (Option-cases (Map.get c.inode_to_paths inode)) [
  | inl absent ↦ rw (absent, detach_inode_path_for_rename) (ground arith)
  | inr (paths, present) ↦ elim (Bool-cases (is_empty (PathSet.remove path paths))) [
    | inl gone ↦
        rw (present, detach_inode_path_for_rename, gone)
          (ground (
            arith,
            paths_at-remove c.inode_to_paths inode j q,
            PathSet.member-remove q path paths,
            PathSet.member-empty q (PathSet.remove path paths) gone,
          ))
    | inr left ↦
        rw (present, detach_inode_path_for_rename, left)
          (ground (
            arith,
            paths_at-insert c.inode_to_paths inode (PathSet.remove path paths) j q,
            PathSet.member-remove q path paths,
          ))
  ]
]

path_to_inode-detach :
    (c : PathCache) (inode : ℕ) (path : List ℕ)
    → (detach_inode_path_for_rename c inode path).path_to_inode ≡ c.path_to_inode
unfolding detach_inode_path_for_rename
path_to_inode-detach c inode path = ground arith

subtree_suffix-append : (r s : List ℕ) → subtree_suffix (r ++ s) r ≡ s
unfolding subtree_suffix
subtree_suffix-append r s = rw (strip_prefix-append r s)

validate-nonempty : (p : List ℕ) → validate_non_root_path_value p ≡ ok tt → is_empty p ≡ false
unfolding validate_non_root_path_value validate_path_value
validate-nonempty p v = ground arith

append-=== : (a s t : List ℕ) → ((a ++ s) === (a ++ t)) ≡ (s === t)
append-=== [] s t = refl
append-=== (x ∷ a) s t = ground (arith, append-=== a s t)

renamed_append :
    (a b s t : List ℕ)
    → ((b ++ subtree_suffix (a ++ s) a) === (b ++ t))
      ≡ ((a ++ s) === (a ++ subtree_suffix (b ++ t) b))
renamed_append a b s t =
    rw (subtree_suffix-append a s, subtree_suffix-append b t)
      (append-=== b s t ∙ sym (append-=== a s t))

module _ (old_path new_path : List ℕ)
    (valid : validate_rename_paths old_path new_path ≡ ok tt) where
  pub nonempty : (is_empty old_path ≡ false) × (is_empty new_path ≡ false)
  unfolding validate_rename_paths
  nonempty = ground (arith, validate-nonempty old_path, validate-nonempty new_path)

  -- Where a cached path goes, and where a path below the new root comes from.
  abbrev pub renamed : List ℕ → List ℕ
  renamed path = new_path ++ subtree_suffix path old_path

  abbrev pub origin : List ℕ → List ℕ
  origin q = old_path ++ subtree_suffix q new_path

  abbrev pub below_old : List ℕ → Bool
  below_old q = path_is_in_subtree q old_path

  abbrev pub below_new : List ℕ → Bool
  below_new q = path_is_in_subtree q new_path

  pub disjoint : (q : List ℕ) → below_old q ≡ true → below_new q ≡ false
  unfolding path_is_in_subtree
  disjoint q h = ground (arith, rename-disjoint q old_path new_path valid)

  pub below_new-renamed : (p : List ℕ) → below_old p ≡ true → below_new (renamed p) ≡ true
  unfolding path_is_in_subtree
  below_new-renamed p h =
      let (s, e, suffix) = suffix-in_subtree p old_path (ground (arith, nonempty)) in
      rw (e, subtree_suffix-append) (ground (arith, in_subtree-append new_path s suffix, nonempty))

  pub below_old-origin : (q : List ℕ) → below_new q ≡ true → below_old (origin q) ≡ true
  unfolding path_is_in_subtree
  below_old-origin q h =
      let (s, e, suffix) = suffix-in_subtree q new_path (ground (arith, nonempty)) in
      rw (e, subtree_suffix-append) (ground (arith, in_subtree-append old_path s suffix, nonempty))

  -- The only path that is renamed to `q` is its origin.
  renamed_iff :
      (p q : List ℕ)
      → below_old p ≡ true
      → below_new q ≡ true
      → (renamed p === q) ≡ (p === origin q)
  unfolding path_is_in_subtree
  renamed_iff p q hp hq =
      let (s, e, _) = suffix-in_subtree p old_path (ground (arith, nonempty)) in
      let (t, f, _) = suffix-in_subtree q new_path (ground (arith, nonempty)) in
      rw (e, f) (renamed_append old_path new_path s t)

  path_to_inode-move :
      (c : PathCache) (p : List ℕ) (i : ℕ)
      → (move_entry c old_path new_path p i).path_to_inode
        ≡ Map.insert (Map.remove c.path_to_inode p) (renamed p) i
  unfolding move_entry link
  path_to_inode-move c p i =
      ap (λ (m : Map (List ℕ) ℕ). Map.insert m (renamed p) i)
        (path_to_inode-detach (record c { path_to_inode = Map.remove c.path_to_inode p }) i p)

  get-move :
      (c : PathCache) (p : List ℕ) (i : ℕ) (q : List ℕ)
      → Map.get (move_entry c old_path new_path p i).path_to_inode q
        ≡ (if renamed p === q then some i else if p === q then none else Map.get c.path_to_inode q)
  get-move c p i q = rw path_to_inode-move (
      ground (
        arith,
        Map.get-insert (Map.remove c.path_to_inode p) (renamed p) q i,
        Map.get-remove c.path_to_inode p q,
      ))

  lists-move :
      (c : PathCache) (p : List ℕ) (i : ℕ) (q : List ℕ) (j : ℕ)
      → lists (move_entry c old_path new_path p i) q j
        ≡ ((i == j && q === renamed p) || (not (i == j && q === p) && lists c q j))
  unfolding move_entry
  lists-move c p i q j =
      lists-link (detach_inode_path_for_rename removed i p) (renamed p) i q j
      ∙ rw (lists-detach removed i p q j) (unfold lists paths_at in refl)
    where
      removed : PathCache
      removed = record c { path_to_inode = Map.remove c.path_to_inode p }

  abbrev pub AllBelow : List (List ℕ × ℕ) → Type 0
  AllBelow = All (λ e. below_old e.0 ≡ true)

  -- Outside the new subtree the moved paths are gone.
  pub get-moves_outside :
      (c : PathCache) (es : List (List ℕ × ℕ)) (q : List ℕ)
      → AllBelow es
      → below_new q ≡ false
      → Map.get (move_entries c old_path new_path es).path_to_inode q
        ≡ (if has_path es q then none else Map.get c.path_to_inode q)
  unfolding move_entries has_path
  get-moves_outside c [] q a out = refl
  get-moves_outside c ((p, i) ∷ es) q a out = ground (
    arith,
    get-moves_outside (move_entry c old_path new_path p i) es q a.1 out,
    get-move c p i q,
    below_new-renamed p a.0,
    bytes_beq_iff (renamed p) q,
  )

  pub lists-moves_outside :
      (c : PathCache) (es : List (List ℕ × ℕ)) (q : List ℕ) (j : ℕ)
      → AllBelow es
      → below_new q ≡ false
      → lists (move_entries c old_path new_path es) q j ≡ (not (has_entry es q j) && lists c q j)
  unfolding move_entries has_entry
  lists-moves_outside c [] q j a out = ground arith
  lists-moves_outside c ((p, i) ∷ es) q j a out = ground (
    arith,
    lists-moves_outside (move_entry c old_path new_path p i) es q j a.1 out,
    lists-move c p i q j,
    below_new-renamed p a.0,
    bytes_beq_iff q (renamed p),
    bytes_beq_iff p q,
    bytes_beq_iff q p,
  )

  -- Inside it, a path has the inode of its origin, the last one that was moved to it.
  pub get-moves_inside :
      (c : PathCache) (es : List (List ℕ × ℕ)) (q : List ℕ)
      → AllBelow es
      → below_new q ≡ true
      → Map.get (move_entries c old_path new_path es).path_to_inode q
        ≡ last_of es (origin q) (Map.get c.path_to_inode q)
  unfolding move_entries last_of
  get-moves_inside c [] q a inside = refl
  get-moves_inside c ((p, i) ∷ es) q a inside =
      get-moves_inside (move_entry c old_path new_path p i) es q a.1 inside
      ∙ ap (last_of es (origin q)) (
          ground (
            arith,
            get-move c p i q,
            renamed_iff p q a.0 inside,
            disjoint p a.0,
            bytes_beq_iff p q,
          ))

  pub lists-moves_inside :
      (c : PathCache) (es : List (List ℕ × ℕ)) (q : List ℕ) (j : ℕ)
      → AllBelow es
      → below_new q ≡ true
      → lists (move_entries c old_path new_path es) q j ≡ (has_entry es (origin q) j || lists c q j)
  unfolding move_entries has_entry
  lists-moves_inside c [] q j a inside = refl
  lists-moves_inside c ((p, i) ∷ es) q j a inside = ground (
    arith,
    lists-moves_inside (move_entry c old_path new_path p i) es q j a.1 inside,
    lists-move c p i q j,
    renamed_iff p q a.0 inside,
    disjoint p a.0,
    bytes_beq_iff p q,
    bytes_beq_iff q p,
    bytes_beq_iff q (renamed p),
    bytes_beq_iff (renamed p) q,
  )
