-- ===== src/Server/Inodes/Fresh.antt =====
-- fabricfs-server/src/service/inode_map.rs: a path keeps its inode, and a new inode is no path's.
use fabric_fs.Prelude.{
  ℕ, ◌<◌, ◌≡◌, ◌≢◌, refl, ap, ◌∙◌, Bool, true, false, not, ltb, leb, ◌==◌, ◌&&◌, ◌||◌, ◌===◌,
  bytes_eq, pair_eq, u64_max, Option, none, some, List, [], ◌∷◌, any, Bool-cases, inl, inr, arith,
}
use fabric_fs.Prelude.Eq.{Eq}
use fabric_fs.Prelude.Map
use fabric_fs.Prelude.Map.{Map, cons_some, get-insert_self}
use fabric_fs.Protocol.Path.{root}
use fabric_fs.Server.Inodes.{
  FileIdentity, InodeMap, new, normalize_path, allocate_inode, forget_previous, set_path_identity,
  at_path, identified, unidentified, root_identity, inode_for_normal, inode_for, remove_normal,
  remove_path, known_inode, InodeCall, run_call, run_calls, if_moved, move_path, move_paths,
  rename_path,
}

-- An inode that was given out, as long as there are new ones.
abbrev pub under : ℕ → ℕ → Bool
under next inode = ltb inode next || next == u64_max

pub data AllUnder {K : Type 0} (next : ℕ) : Map K ℕ → Type 0 where
  none_under : AllUnder next []
  one_under :
      {k : K} {inode : ℕ} {m : Map K ℕ}
      → under next inode ≡ true
      → AllUnder next m
      → AllUnder next ((k, inode) ∷ m)

module _ {K : Type 0} ⦃e : Eq K⦄ (next : ℕ) where
  AllUnder-get :
      {m : Map K ℕ} (key : K) (i : ℕ)
      → AllUnder next m
      → Map.get m key ≡ some i
      → under next i ≡ true
  unfolding Map.get
  AllUnder-get key i none_under h = cc
  AllUnder-get key i (one_under {k} {inode} {m} u rest) h = elim (Bool-cases (k === key)) [
    | inl same ↦ ground arith
    | inr other ↦ AllUnder-get key i rest (ground arith)
  ]

  AllUnder-remove : {m : Map K ℕ} (key : K) → AllUnder next m → AllUnder next (Map.remove m key)
  unfolding Map.remove
  AllUnder-remove key none_under = none_under
  AllUnder-remove key (one_under {k} {inode} {m} u rest) = elim (Bool-cases (k === key)) [
    | inl same ↦ rw same (AllUnder-remove key rest)
    | inr other ↦ rw other (one_under u (AllUnder-remove key rest))
  ]

  AllUnder-insert :
      {m : Map K ℕ} (k : K) (inode : ℕ)
      → under next inode ≡ true
      → AllUnder next m
      → AllUnder next (Map.insert m k inode)
  unfolding Map.insert
  AllUnder-insert k inode u all = one_under u (AllUnder-remove k all)

  AllUnder-cons_some :
      (key : K) (i : ℕ) (o : Option ℕ) {m : Map K ℕ}
      → ((j : ℕ) → o ≡ some j → j ≡ i)
      → under next i ≡ true
      → AllUnder next m
      → AllUnder next (cons_some key o m)
  AllUnder-cons_some key i none same u all = all
  AllUnder-cons_some key i (some j) same u all = one_under (rw (same j refl) u) all

  AllUnder-filter_map :
      (f : K → ℕ → Option ℕ)
      → ((k : K) (i j : ℕ) → f k i ≡ some j → j ≡ i)
      → {m : Map K ℕ} → AllUnder next m
      → AllUnder next (Map.filter_map f m)
  unfolding Map.filter_map
  AllUnder-filter_map f same none_under = none_under
  AllUnder-filter_map f same (one_under {k} {inode} {m} u rest) =
      AllUnder-cons_some k inode (f k inode) (same k inode) u
        (AllUnder-remove k (AllUnder-filter_map f same rest))

AllUnder-weaken :
    {K : Type 0} (next next' : ℕ) {m : Map K ℕ}
    → ((i : ℕ) → under next i ≡ true → under next' i ≡ true)
    → AllUnder next m
    → AllUnder next' m
AllUnder-weaken next next' more none_under = none_under
AllUnder-weaken next next' more (one_under u rest) =
    one_under (more _ u) (AllUnder-weaken next next' more rest)

pub record IsFresh (m : InodeMap) : Type 0 where
  pub past_root : leb 2 m.next_inode ≡ true
  pub paths : AllUnder m.next_inode m.by_path
  pub identities : AllUnder m.next_inode m.by_identity

pub new-IsFresh : IsFresh new
unfolding new
new-IsFresh = record {
  past_root = refl;
  paths = one_under refl none_under;
  identities = none_under;
}

root_under : (next : ℕ) → leb 2 next ≡ true → under next 1 ≡ true
root_under next h = ground arith

at_path-IsFresh :
    (m : InodeMap) (path : List ℕ) (inode : ℕ)
    → under m.next_inode inode ≡ true
    → IsFresh m
    → IsFresh (at_path m path inode)
at_path-IsFresh m path inode u f = record {
  past_root = f.past_root;
  paths = AllUnder-insert m.next_inode path inode u f.paths;
  identities = f.identities;
}

forget_previous-AllUnder :
    (next : ℕ) (paths : Map (List ℕ) FileIdentity) (m : Map FileIdentity ℕ)
    (identity : FileIdentity) (o : Option FileIdentity)
    → AllUnder next m
    → AllUnder next (forget_previous paths m identity o)
unfolding forget_previous
forget_previous-AllUnder next paths m identity none all = all
forget_previous-AllUnder next paths m identity (some previous) all =
    elim (Bool-cases
      (not (previous === identity) && not (any (λ cached. cached.1 === previous) paths))) [
        | inl gone ↦ rw gone (AllUnder-remove next previous all)
        | inr stays ↦ rw stays all
      ]

set_path_identity-IsFresh :
    (m : InodeMap) (path : List ℕ) (inode : ℕ) (identity : FileIdentity)
    → under m.next_inode inode ≡ true
    → IsFresh m
    → IsFresh (set_path_identity m path inode identity)
unfolding set_path_identity
set_path_identity-IsFresh m path inode identity u f = record {
  past_root = f.past_root;
  paths = f.paths;
  identities = AllUnder-insert m.next_inode identity inode u (
      forget_previous-AllUnder m.next_inode _ m.by_identity identity
        (Map.get m.identity_by_path path) f.identities);
}

allocate_inode-under :
    (m : InodeMap) → under (allocate_inode m).0.next_inode (allocate_inode m).1 ≡ true
unfolding allocate_inode
allocate_inode-under m = ground arith

allocate_inode-IsFresh : (m : InodeMap) → IsFresh m → IsFresh (allocate_inode m).0
unfolding allocate_inode
allocate_inode-IsFresh m f = record {
  past_root = ground arith;
  paths = AllUnder-weaken m.next_inode _ (λ i h. ground arith) f.paths;
  identities = AllUnder-weaken m.next_inode _ (λ i h. ground arith) f.identities;
}

identified-IsFresh :
    (m : InodeMap) (path : List ℕ) (identity : FileIdentity) (o known : Option ℕ)
    → Map.get m.by_path path ≡ o
    → Map.get m.by_identity identity ≡ known
    → IsFresh m
    → IsFresh (identified m path identity o known).0
identified-IsFresh m path identity (some inode) known h h' f =
    set_path_identity-IsFresh m path inode identity (AllUnder-get m.next_inode path inode f.paths h)
      f
identified-IsFresh m path identity none (some inode) h h' f =
    let u = AllUnder-get m.next_inode identity inode f.identities h' in
    set_path_identity-IsFresh (at_path m path inode) path inode identity u
      (at_path-IsFresh m path inode u f)
identified-IsFresh m path identity none none h h' f =
    let u = allocate_inode-under m in
    set_path_identity-IsFresh (at_path (allocate_inode m).0 path (allocate_inode m).1) path
      (allocate_inode m).1 identity u
      (at_path-IsFresh (allocate_inode m).0 path (allocate_inode m).1 u
        (allocate_inode-IsFresh m f))

unidentified-IsFresh :
    (m : InodeMap) (path : List ℕ) (o : Option ℕ) → IsFresh m → IsFresh (unidentified m path o).0
unidentified-IsFresh m path (some inode) f = f
unidentified-IsFresh m path none f =
    at_path-IsFresh (allocate_inode m).0 path (allocate_inode m).1 (allocate_inode-under m)
      (allocate_inode-IsFresh m f)

normal-IsFresh :
    (m : InodeMap) (path : List ℕ) (identity : Option FileIdentity)
    → IsFresh m
    → IsFresh (inode_for_normal m path identity).0
normal-IsFresh m path none f = unidentified-IsFresh m path _ f
normal-IsFresh m path (some identity) f = identified-IsFresh m path identity _ _ refl refl f

rooted-IsFresh :
    (m : InodeMap) (identity : Option FileIdentity) → IsFresh m → IsFresh (root_identity m identity)
rooted-IsFresh m none f = f
rooted-IsFresh m (some identity) f =
    set_path_identity-IsFresh m root 1 identity (root_under _ f.past_root) f

pub inode_for-IsFresh :
    (m : InodeMap) (path : List ℕ) (identity : Option FileIdentity)
    → IsFresh m
    → IsFresh (inode_for m path identity).0
unfolding inode_for
inode_for-IsFresh m path identity f = elim (Bool-cases (normalize_path path === root)) [
  | inl at_root ↦ rw at_root (rooted-IsFresh m identity f)
  | inr below ↦ rw below (normal-IsFresh m (normalize_path path) identity f)
]

remove_normal-IsFresh : (m : InodeMap) (path : List ℕ) → IsFresh m → IsFresh (remove_normal m path)
remove_normal-IsFresh m path f = record {
  past_root = f.past_root;
  paths =
      AllUnder-insert m.next_inode root 1 (root_under _ f.past_root)
        (AllUnder-filter_map m.next_inode _ (λ k i j h. ground arith) f.paths);
  identities = AllUnder-filter_map m.next_inode _ (λ k i j h. ground arith) f.identities;
}

pub remove_path-IsFresh : (m : InodeMap) (path : List ℕ) → IsFresh m → IsFresh (remove_path m path)
unfolding remove_path
remove_path-IsFresh m path f = remove_normal-IsFresh m (normalize_path path) f

move_paths-IsFresh :
    (next : ℕ) (old_path new_path : List ℕ) {moved : Map (List ℕ) ℕ}
    → AllUnder next moved
    → (m : InodeMap) → m.next_inode ≡ next
    → IsFresh m
    → IsFresh (move_paths m old_path new_path moved)
unfolding move_paths
move_paths-IsFresh next old_path new_path none_under m same f = f
move_paths-IsFresh next old_path new_path (one_under {k} {inode} {m = moved} u rest) m same f =
    move_paths-IsFresh next old_path new_path rest (move_path m k _ inode) same (record {
      past_root = f.past_root;
      paths =
          AllUnder-insert m.next_inode _ inode (rw same u) (AllUnder-remove m.next_inode k f.paths);
      identities = f.identities;
    })

if_moved-same : (o : Option (List ℕ)) (i j : ℕ) → if_moved o i ≡ some j → j ≡ i
if_moved-same none i j h = cc
if_moved-same (some suffix) i j h = cc

pub rename_path-IsFresh :
    (m : InodeMap) (old_path new_path : List ℕ)
    → IsFresh m
    → IsFresh (rename_path m old_path new_path)
unfolding rename_path
rename_path-IsFresh m old_path new_path f =
    let cleared = remove_path-IsFresh m (normalize_path new_path) f in
    move_paths-IsFresh _ (normalize_path old_path) (normalize_path new_path)
      (AllUnder-filter_map _ _ (λ k i j h. if_moved-same _ i j h) cleared.paths)
      (remove_path m (normalize_path new_path)) refl cleared

run_call-IsFresh : (c : InodeCall) (m : InodeMap) → IsFresh m → IsFresh (run_call c m)
unfolding run_call
run_call-IsFresh (InodeCall.ask_inode path identity) m f = inode_for-IsFresh m path identity f
run_call-IsFresh (InodeCall.move_tree old_path new_path) m f =
    rename_path-IsFresh m old_path new_path f
run_call-IsFresh (InodeCall.drop_tree path) m f = remove_path-IsFresh m path f

run_calls-IsFresh :
    (calls : List InodeCall) (m : InodeMap) → IsFresh m → IsFresh (run_calls calls m)
unfolding run_calls
run_calls-IsFresh [] m f = f
run_calls-IsFresh (c ∷ rest) m f = run_calls-IsFresh rest (run_call c m) (run_call-IsFresh c m f)

-- What an unknown path is given is the next inode.
allocated :
    (m : InodeMap) (path : List ℕ) (identity : Option FileIdentity)
    → (normalize_path path === root) ≡ false
    → Map.get m.by_path (normalize_path path) ≡ none
    → known_inode m identity ≡ none
    → (inode_for m path identity).1 ≡ m.next_inode
unfolding inode_for allocate_inode
allocated m path none below h h' = rw (below, h) refl
allocated m path (some identity) below h h' = rw (below, h, h') refl

-- After any calls of a new map, and before the inodes run out, a path below the root that is not known,
-- with no identity or with one that is not known, is given an inode that no path has.
pub inode_for-new :
    (calls : List InodeCall) (path : List ℕ) (identity : Option FileIdentity) (other : List ℕ)
    → (run_calls calls new).next_inode < u64_max
    → (normalize_path path === root) ≡ false
    → Map.get (run_calls calls new).by_path (normalize_path path) ≡ none
    → known_inode (run_calls calls new) identity ≡ none
    → Map.get (run_calls calls new).by_path other
      ≢ some (inode_for (run_calls calls new) path identity).1
inode_for-new calls path identity other bound below unknown unidentified h =
    let m = run_calls calls new in
    let f = run_calls-IsFresh calls new new-IsFresh in
    let u : under m.next_inode m.next_inode ≡ true =
      AllUnder-get m.next_inode other m.next_inode f.paths
        (h ∙ ap some (allocated m path identity below unknown unidentified)) in
    ground arith
