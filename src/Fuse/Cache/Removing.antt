-- ===== src/Fuse/Cache/Removing.antt =====
-- What leaves the cache: a subtree that was deleted, and an inode that the kernel forgot.
use fabric_fs.Prelude.{
  ℕ, ◌≡◌, ◌≢◌, refl, ◌∙◌, true, false, ◌&&◌, ◌||◌, not, Option, none, some, List, [], ◌∷◌, ◌-◌, ltb,
  ◌==◌, ◌===◌, if◌then◌else◌, bytes_eq, nat_eq, arith, is_empty, Bool-cases, inl, inr,
}
use fabric_fs.Prelude.Eq.{bytes_beq_iff}
use fabric_fs.Prelude.Map
use fabric_fs.Prelude.Map.{Map}
use fabric_fs.Protocol.Path.{root}
use fabric_fs.Fuse.PathSet
use fabric_fs.Fuse.Paths.{path_is_in_subtree}
use fabric_fs.Fuse.Cache.{
  PathCache, paths_at, remove_paths, remove_inode, forget, paths_in_subtree, drop_entry,
  drop_entries, remove_path, is_none,
}
use fabric_fs.Fuse.Cache.Consistent.{
  maps, lists, IsConsistent, lists-remove_inode_path, path_to_inode-remove_inode_path,
}
use fabric_fs.Fuse.Cache.Entries.{
  has_path, has_entry, has_path-paths_in_subtree, has_entry-paths_in_subtree,
}

maps-drop_entry :
    (c : PathCache) (p : List ℕ) (i : ℕ) (q : List ℕ) (j : ℕ)
    → maps (drop_entry c p i) q j ≡ (not (p === q) && maps c q j)
unfolding maps drop_entry
maps-drop_entry c p i q j =
    rw
      (path_to_inode-remove_inode_path (record c { path_to_inode = Map.remove c.path_to_inode p }) i
        p)
      (ground (arith, Map.get-remove c.path_to_inode p q))

lists-drop_entry :
    (c : PathCache) (p : List ℕ) (i : ℕ) (q : List ℕ) (j : ℕ)
    → lists (drop_entry c p i) q j ≡ (not (i == j && q === p) && lists c q j)
unfolding drop_entry
lists-drop_entry c p i q j =
    lists-remove_inode_path (record c { path_to_inode = Map.remove c.path_to_inode p }) i p q j
    ∙ (unfold lists paths_at in refl)

pub maps-drop_entries :
    (c : PathCache) (es : List (List ℕ × ℕ)) (q : List ℕ) (j : ℕ)
    → maps (drop_entries c es) q j ≡ (not (has_path es q) && maps c q j)
unfolding drop_entries has_path
maps-drop_entries c [] q j = ground arith
maps-drop_entries c ((p, i) ∷ es) q j =
    ground (arith, maps-drop_entries (drop_entry c p i) es q j, maps-drop_entry c p i q j)

pub lists-drop_entries :
    (c : PathCache) (es : List (List ℕ × ℕ)) (q : List ℕ) (j : ℕ)
    → lists (drop_entries c es) q j ≡ (not (has_entry es q j) && lists c q j)
unfolding drop_entries has_entry
lists-drop_entries c [] q j = ground arith
lists-drop_entries c ((p, i) ∷ es) q j = ground (
  arith,
  lists-drop_entries (drop_entry c p i) es q j,
  lists-drop_entry c p i q j,
  bytes_beq_iff q p,
  bytes_beq_iff p q,
)

pub maps-is_none :
    (c : PathCache) (q : List ℕ) (j : ℕ)
    → maps c q j ≡ true
    → is_none (Map.get c.path_to_inode q) ≡ false
unfolding maps
maps-is_none c q j h = ground arith

pub drop_subtree-IsConsistent :
    (c : PathCache) (path : List ℕ)
    → IsConsistent c
    → IsConsistent (drop_entries c (paths_in_subtree c path))
drop_subtree-IsConsistent c path k = record {
  agree = λ q j. ground (
    arith,
    lists-drop_entries c (paths_in_subtree c path) q j,
    maps-drop_entries c (paths_in_subtree c path) q j,
    has_path-paths_in_subtree c path q,
    has_entry-paths_in_subtree c path q j,
    k.agree q j,
    maps-is_none c q j,
  );
}

pub remove_path-IsConsistent :
    (c : PathCache) (path : List ℕ) → IsConsistent c → IsConsistent (remove_path c path)
unfolding remove_path
remove_path-IsConsistent c path k = elim (Bool-cases (is_empty path || path === root)) [
  | inl kept ↦ rw kept k
  | inr dropped ↦ rw dropped (drop_subtree-IsConsistent c path k)
]

-- After a path was removed, no path below it is cached, and the others are as they were.
pub maps-remove_path :
    (c : PathCache) (path q : List ℕ) (j : ℕ)
    → is_empty path ≡ false
    → (path === root) ≡ false
    → maps (remove_path c path) q j ≡ (not (path_is_in_subtree q path) && maps c q j)
unfolding remove_path
maps-remove_path c path q j nonempty nonroot =
    rw (nonempty, nonroot)
      (ground (
        arith,
        maps-drop_entries c (paths_in_subtree c path) q j,
        has_path-paths_in_subtree c path q,
        maps-is_none c q j,
      ))

get-remove_paths :
    (m : Map (List ℕ) ℕ) (ps : List (List ℕ)) (q : List ℕ)
    → Map.get (remove_paths m ps) q ≡ (if PathSet.member q ps then none else Map.get m q)
unfolding remove_paths PathSet.member
get-remove_paths m [] q = refl
get-remove_paths m (p ∷ ps) q = ground (
  arith,
  get-remove_paths (Map.remove m p) ps q,
  Map.get-remove m p q,
  bytes_beq_iff p q,
  bytes_beq_iff q p,
)

-- In a consistent cache, after an inode other than the root's was removed no path is cached for it, and
-- the paths of the others are as they were.
pub maps-remove_inode :
    (c : PathCache) (i : ℕ) (q : List ℕ) (j : ℕ)
    → IsConsistent c
    → i ≢ 1
    → maps (remove_inode c i) q j ≡ (not (i == j) && maps c q j)
unfolding remove_inode maps lists
maps-remove_inode c i q j k nonroot =
    ground (arith, get-remove_paths c.path_to_inode (paths_at c i) q, k.agree q i, k.agree q j)

lists-remove_inode :
    (c : PathCache) (i : ℕ) (q : List ℕ) (j : ℕ)
    → i ≢ 1
    → lists (remove_inode c i) q j ≡ (not (i == j) && lists c q j)
unfolding remove_inode lists paths_at PathSet.member
lists-remove_inode c i q j nonroot = ground (arith, Map.get-remove c.inode_to_paths i j)

pub remove_inode-IsConsistent :
    (c : PathCache) (i : ℕ) → IsConsistent c → IsConsistent (remove_inode c i)
remove_inode-IsConsistent c i k = elim (Bool-cases (i == 1)) [
  | inl at_root ↦ unfold remove_inode in rw at_root k
  | inr other ↦ record {
    agree =
        λ q j. ground (arith, lists-remove_inode c i q j, maps-remove_inode c i q j k, k.agree q j);
  }
]

-- Only the two directions count for consistency, not the lookup counts.
counts-IsConsistent :
    (c : PathCache) (counts : Map ℕ ℕ)
    → IsConsistent c
    → IsConsistent (record c { lookup_counts = counts })
counts-IsConsistent c counts k = record { agree = λ q j. unfold lists maps paths_at in k.agree q j }

-- The two directions of the cache agree after lookups of an inode were forgotten, if they did before.
pub forget-IsConsistent : (c : PathCache) (i n : ℕ) → IsConsistent c → IsConsistent (forget c i n)
unfolding forget
forget-IsConsistent c i n k = elim (Bool-cases (i == 1 || n == 0)) [
  | inl kept ↦ rw kept k
  | inr counted ↦ rw counted (go (Map.get c.lookup_counts i))
]
  where
    go :
        (o : Option ℕ)
        → IsConsistent (elim o [
          | none ↦ remove_inode c i
          | some count ↦
              if ltb n count
              then record c { lookup_counts = Map.insert c.lookup_counts i (count - n) }
              else remove_inode (record c { lookup_counts = Map.remove c.lookup_counts i }) i
        ])
    go none = remove_inode-IsConsistent c i k
    go (some count) = elim (Bool-cases (ltb n count)) [
      | inl more ↦ rw more (counts-IsConsistent c _ k)
      | inr done ↦ rw done (remove_inode-IsConsistent _ i (counts-IsConsistent c _ k))
    ]
