-- ===== src/Fuse/Cache/Entries.antt =====
-- The entries below a path, as lists of paths with their inodes.
use fabric_fs.Prelude.{
  ℕ, ◌≡◌, refl, Bool, false, ◌&&◌, ◌||◌, not, Option, none, some, List, [], ◌∷◌, ◌==◌, ◌===◌,
  if◌then◌else◌, bytes_eq, arith, ◌∙◌,
}
use fabric_fs.Prelude.Eq.{bytes_beq_iff}
use fabric_fs.Prelude.Map
use fabric_fs.Prelude.Map.{Map}
use fabric_fs.Fuse.Paths.{path_is_in_subtree}
use fabric_fs.Fuse.Cache.{PathCache, paths_in_subtree, is_none, not_among}
use fabric_fs.Fuse.Cache.Consistent.{is_inode, maps}

unfoldable pub has_path : List (List ℕ × ℕ) → List ℕ → Bool
has_path [] q = false
has_path ((p, i) ∷ es) q = p === q || has_path es q

unfoldable pub has_entry : List (List ℕ × ℕ) → List ℕ → ℕ → Bool
has_entry [] q j = false
has_entry ((p, i) ∷ es) q j = (p === q && i == j) || has_entry es q j

-- The inode of the last entry of a path.
unfoldable pub last_of : List (List ℕ × ℕ) → List ℕ → Option ℕ → Option ℕ
last_of [] q o = o
last_of ((p, i) ∷ es) q o = last_of es q (if p === q then some i else o)

abbrev or_else : Option ℕ → Option ℕ → Option ℕ
or_else none o = o
or_else (some i) o = some i

last_of-remove :
    (m : Map (List ℕ) ℕ) (p q : List ℕ) (o : Option ℕ)
    → last_of (Map.remove m p) q o ≡ (if p === q then o else last_of m q o)
unfolding last_of Map.remove
last_of-remove [] p q o = ground arith
last_of-remove ((r, i) ∷ m) p q o = ground (
  arith,
  last_of-remove m p q o,
  last_of-remove m p q (if r === q then some i else o),
  bytes_beq_iff r p,
  bytes_beq_iff r q,
  bytes_beq_iff p q,
)

has_path-remove :
    (m : Map (List ℕ) ℕ) (p q : List ℕ)
    → has_path (Map.remove m p) q ≡ (not (p === q) && has_path m q)
unfolding has_path Map.remove
has_path-remove [] p q = ground arith
has_path-remove ((r, i) ∷ m) p q =
    ground (arith, has_path-remove m p q, bytes_beq_iff r p, bytes_beq_iff r q, bytes_beq_iff p q)

has_entry-remove :
    (m : Map (List ℕ) ℕ) (p q : List ℕ) (j : ℕ)
    → has_entry (Map.remove m p) q j ≡ (not (p === q) && has_entry m q j)
unfolding has_entry Map.remove
has_entry-remove [] p q j = ground arith
has_entry-remove ((r, i) ∷ m) p q j =
    ground
      (arith, has_entry-remove m p q j, bytes_beq_iff r p, bytes_beq_iff r q, bytes_beq_iff p q)

-- A dictionary with one entry for a key lists what it maps.
module _ (f : List ℕ → ℕ → Option ℕ) where
  has_path-filter_map :
      (m : Map (List ℕ) ℕ) (q : List ℕ)
      → has_path (Map.filter_map f m) q ≡ not (is_none (Map.get (Map.filter_map f m) q))
  unfolding has_path Map.filter_map Map.get
  has_path-filter_map [] q = refl
  has_path-filter_map ((p, i) ∷ m) q = ground (
    arith,
    has_path-remove (Map.filter_map f m) p q,
    has_path-filter_map m q,
    Map.get-remove (Map.filter_map f m) p q,
  )

  has_entry-filter_map :
      (m : Map (List ℕ) ℕ) (q : List ℕ) (j : ℕ)
      → has_entry (Map.filter_map f m) q j ≡ is_inode (Map.get (Map.filter_map f m) q) j
  unfolding has_entry Map.filter_map Map.get
  has_entry-filter_map [] q j = refl
  has_entry-filter_map ((p, i) ∷ m) q j = ground (
    arith,
    has_entry-remove (Map.filter_map f m) p q j,
    has_entry-filter_map m q j,
    Map.get-remove (Map.filter_map f m) p q,
  )

  last_of-filter_map :
      (m : Map (List ℕ) ℕ) (q : List ℕ) (o : Option ℕ)
      → last_of (Map.filter_map f m) q o ≡ or_else (Map.get (Map.filter_map f m) q) o
  unfolding last_of Map.filter_map Map.get
  last_of-filter_map [] q o = refl
  last_of-filter_map ((p, i) ∷ m) q o = ground (
    arith,
    last_of-remove (Map.filter_map f m) p q o,
    last_of-filter_map m q o,
    last_of-remove (Map.filter_map f m) p q (f p i),
    Map.get-remove (Map.filter_map f m) p q,
  )

module _ (c : PathCache) (path q : List ℕ) where
  pub get-paths_in_subtree :
      Map.get (paths_in_subtree c path) q
      ≡ (if path_is_in_subtree q path then Map.get c.path_to_inode q else none)
  unfolding paths_in_subtree
  get-paths_in_subtree = ground (
    arith,
    Map.get-filter_map (λ cached inode. if path_is_in_subtree cached path then some inode else none)
        c.path_to_inode q,
  )

  abbrev keep : List ℕ → ℕ → Option ℕ
  keep cached inode = if path_is_in_subtree cached path then some inode else none

  pub has_path-paths_in_subtree :
      has_path (paths_in_subtree c path) q
      ≡ (path_is_in_subtree q path && not (is_none (Map.get c.path_to_inode q)))
  unfolding paths_in_subtree
  has_path-paths_in_subtree =
      has_path-filter_map keep c.path_to_inode q ∙ ground (arith, get-paths_in_subtree)

  pub has_entry-paths_in_subtree :
      (j : ℕ) → has_entry (paths_in_subtree c path) q j ≡ (path_is_in_subtree q path && maps c q j)
  unfolding paths_in_subtree maps
  has_entry-paths_in_subtree j =
      has_entry-filter_map keep c.path_to_inode q j ∙ ground (arith, get-paths_in_subtree)

  pub last_of-paths_in_subtree :
      last_of (paths_in_subtree c path) q none
      ≡ (if path_is_in_subtree q path then Map.get c.path_to_inode q else none)
  unfolding paths_in_subtree
  last_of-paths_in_subtree =
      last_of-filter_map keep c.path_to_inode q none ∙ ground (arith, get-paths_in_subtree)

pub has_path-not_among :
    (except es : List (List ℕ × ℕ)) (q : List ℕ)
    → has_path (not_among except es) q ≡ (is_none (Map.get except q) && has_path es q)
unfolding has_path not_among
has_path-not_among except [] q = ground arith
has_path-not_among except ((p, i) ∷ es) q =
    ground (arith, has_path-not_among except es q, bytes_beq_iff p q)

pub has_entry-not_among :
    (except es : List (List ℕ × ℕ)) (q : List ℕ) (j : ℕ)
    → has_entry (not_among except es) q j ≡ (is_none (Map.get except q) && has_entry es q j)
unfolding has_entry not_among
has_entry-not_among except [] q j = ground arith
has_entry-not_among except ((p, i) ∷ es) q j =
    ground (arith, has_entry-not_among except es q j, bytes_beq_iff p q)
