-- ===== src/Fuse/Cache/Consistent.antt =====
-- The two directions of the cache, and what the insertions do to each.
use fabric_fs.Prelude.{
  ℕ, ◌≡◌, ◌≢◌, refl, Bool, true, false, ◌&&◌, ◌||◌, not, Option, none, some, List, ◌==◌, ◌===◌,
  if◌then◌else◌, bytes_eq, nat_eq, arith, is_empty, Bool-cases, Option-cases, inl, inr, ==_iff,
}
use fabric_fs.Prelude.Eq.{bytes_beq_iff}
use fabric_fs.Prelude.Map
use fabric_fs.Prelude.Map.{Map}
use fabric_fs.Fuse.PathSet
use fabric_fs.Fuse.Cache.{
  PathCache, paths_at, or_default, remove_inode_path, displace, link, insert, emptied, new, poison,
  reset_with_sequence,
}

abbrev pub is_inode : Option ℕ → ℕ → Bool
is_inode none i = false
is_inode (some j) i = j == i

-- The path is cached for the inode, by either direction.
unfoldable pub maps : PathCache → List ℕ → ℕ → Bool
maps c path inode = is_inode (Map.get c.path_to_inode path) inode

unfoldable pub lists : PathCache → List ℕ → ℕ → Bool
lists c path inode = PathSet.member path (paths_at c inode)

pub record IsConsistent (c : PathCache) : Type 0 where
  pub agree : (path : List ℕ) (inode : ℕ) → lists c path inode ≡ maps c path inode

-- The paths of each inode after an inode's paths were set, or removed when none is left.
module _ (m : Map ℕ (List (List ℕ))) (inode : ℕ) where
  pub paths_at-insert :
      (paths : List (List ℕ)) (j : ℕ) (q : List ℕ)
      → PathSet.member q (or_default (Map.get (Map.insert m inode paths) j)) ≡ (
          if inode == j
          then PathSet.member q paths
          else PathSet.member q (or_default (Map.get m j)))
  paths_at-insert paths j q = ground (arith, Map.get-insert m inode j paths)

  pub paths_at-remove :
      (j : ℕ) (q : List ℕ)
      → PathSet.member q (or_default (Map.get (Map.remove m inode) j))
        ≡ (not (inode == j) && PathSet.member q (or_default (Map.get m j)))
  unfolding PathSet.member
  paths_at-remove j q = ground (arith, Map.get-remove m inode j)

pub lists-remove_inode_path :
    (c : PathCache) (inode : ℕ) (path q : List ℕ) (j : ℕ)
    → lists (remove_inode_path c inode path) q j ≡ (not (inode == j && q === path) && lists c q j)
unfolding lists paths_at remove_inode_path PathSet.member
lists-remove_inode_path c inode path q j = elim (Option-cases (Map.get c.inode_to_paths inode)) [
  | inl absent ↦ rw (absent, remove_inode_path) (ground arith)
  | inr (paths, present) ↦ elim (Bool-cases (is_empty (PathSet.remove path paths))) [
    | inl gone ↦
        rw (present, remove_inode_path, gone)
          (ground (
            arith,
            paths_at-remove c.inode_to_paths inode j q,
            PathSet.member-remove q path paths,
            PathSet.member-empty q (PathSet.remove path paths) gone,
          ))
    | inr left ↦
        rw (present, remove_inode_path, left)
          (ground (
            arith,
            paths_at-insert c.inode_to_paths inode (PathSet.remove path paths) j q,
            PathSet.member-remove q path paths,
          ))
  ]
]

pub path_to_inode-remove_inode_path :
    (c : PathCache) (inode : ℕ) (path : List ℕ)
    → (remove_inode_path c inode path).path_to_inode ≡ c.path_to_inode
unfolding remove_inode_path
path_to_inode-remove_inode_path c inode path = ground arith

pub maps-link :
    (c : PathCache) (p : List ℕ) (i : ℕ) (q : List ℕ) (j : ℕ)
    → maps (link c p i) q j ≡ (if p === q then i == j else maps c q j)
unfolding maps link
maps-link c p i q j = ground (arith, Map.get-insert c.path_to_inode p q i)

pub lists-link :
    (c : PathCache) (p : List ℕ) (i : ℕ) (q : List ℕ) (j : ℕ)
    → lists (link c p i) q j ≡ ((i == j && q === p) || lists c q j)
unfolding lists link paths_at
lists-link c p i q j = ground (
  arith,
  paths_at-insert c.inode_to_paths i (PathSet.insert p (paths_at c i)) j q,
  PathSet.member-insert q p (or_default (Map.get c.inode_to_paths i)),
  ==_iff i j,
)

maps-displace :
    (c : PathCache) (p : List ℕ) (i : ℕ) (q : List ℕ) (j : ℕ)
    → maps (displace c p i) q j ≡ maps c q j
unfolding maps displace
maps-displace c p i q j = elim (Option-cases (Map.get c.path_to_inode p)) [
  | inl absent ↦ rw (absent, displace)
  | inr (old, present) ↦
      rw (present, displace) (ground (arith, path_to_inode-remove_inode_path c old p))
]

-- An inserted path leaves the inode that it was listed for before.
lists-displace :
    (c : PathCache) (p : List ℕ) (i : ℕ) (q : List ℕ) (j : ℕ)
    → IsConsistent c
    → lists (displace c p i) q j ≡ ((not (q === p) || i == j) && lists c q j)
unfolding displace maps
lists-displace c p i q j k = elim (Option-cases (Map.get c.path_to_inode p)) [
  | inl absent ↦ rw (absent, displace) (ground (arith, k.agree q j, bytes_beq_iff q p))
  | inr (old, present) ↦
      rw (present, displace)
        (ground (arith, lists-remove_inode_path c old p q j, k.agree q j, bytes_beq_iff q p))
]

pub insert-IsConsistent :
    (c : PathCache) (p : List ℕ) (i : ℕ) → IsConsistent c → IsConsistent (insert c p i)
unfolding insert
insert-IsConsistent c p i k = elim (Bool-cases (i == 0)) [
  | inl zero_inode ↦ rw zero_inode k
  | inr proper ↦ rw proper (record {
    agree = λ q j. ground (
      arith,
      lists-link (displace c p i) p i q j,
      maps-link (displace c p i) p i q j,
      lists-displace c p i q j k,
      maps-displace c p i q j,
      k.agree q j,
      bytes_beq_iff q p,
      bytes_beq_iff p q,
    );
  })
]

-- A path that is inserted is cached for that inode alone, and no other path changes.
pub maps-insert :
    (c : PathCache) (p : List ℕ) (i : ℕ) (q : List ℕ) (j : ℕ)
    → i ≢ 0
    → maps (insert c p i) q j ≡ (if p === q then i == j else maps c q j)
unfolding insert
maps-insert c p i q j nonzero =
    ground (arith, maps-link (displace c p i) p i q j, maps-displace c p i q j)

emptied-IsConsistent : (b : Bool) (n : ℕ) → IsConsistent (emptied b n)
unfolding lists maps paths_at Map.get PathSet.member
emptied-IsConsistent b n = record { agree = λ p i. refl }

pub poison-IsConsistent : (c : PathCache) → IsConsistent (poison c)
unfolding poison
poison-IsConsistent c = insert-IsConsistent _ _ 1 (emptied-IsConsistent true c.last_sequence)

pub reset-IsConsistent : (n : ℕ) → IsConsistent (reset_with_sequence n)
unfolding reset_with_sequence
reset-IsConsistent n = insert-IsConsistent _ _ 1 (emptied-IsConsistent false n)

pub new-IsConsistent : IsConsistent new
unfolding new
new-IsConsistent = insert-IsConsistent _ _ 1 (emptied-IsConsistent false 0)
