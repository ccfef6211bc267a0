-- ===== src/Server/Inodes/Kept.antt =====
-- fabricfs-server/src/service/inode_map.rs: a path keeps its inode.
use fabric_fs.Prelude.{
  ℕ, ◌≡◌, refl, ◌===◌, bytes_eq, pair_eq, Option, none, some, List, Bool-cases, inl, inr,
}
use fabric_fs.Prelude.Map
use fabric_fs.Prelude.Map.{get-insert_self}
use fabric_fs.Protocol.Path.{root}
use fabric_fs.Server.Inodes.{
  FileIdentity, InodeMap, normalize_path, allocate_inode, set_path_identity, at_path, identified,
  unidentified, inode_for_normal, inode_for,
}

set_path_identity-by_path :
    (m : InodeMap) (path : List ℕ) (inode : ℕ) (identity : FileIdentity)
    → (set_path_identity m path inode identity).by_path ≡ m.by_path
unfolding set_path_identity
set_path_identity-by_path m path inode identity = refl

identified-known :
    (m : InodeMap) (path : List ℕ) (identity : FileIdentity) (o known : Option ℕ)
    → Map.get m.by_path path ≡ o
    → Map.get (identified m path identity o known).0.by_path path
      ≡ some (identified m path identity o known).1
identified-known m path identity (some inode) known h =
    rw (set_path_identity-by_path m path inode identity) h
identified-known m path identity none (some inode) h =
    rw (set_path_identity-by_path (at_path m path inode) path inode identity)
      (get-insert_self m.by_path path inode)
identified-known m path identity none none h =
    rw
      (set_path_identity-by_path (at_path (allocate_inode m).0 path (allocate_inode m).1) path
        (allocate_inode m).1 identity)
      (get-insert_self (allocate_inode m).0.by_path path (allocate_inode m).1)

unidentified-known :
    (m : InodeMap) (path : List ℕ) (o : Option ℕ)
    → Map.get m.by_path path ≡ o
    → Map.get (unidentified m path o).0.by_path path ≡ some (unidentified m path o).1
unidentified-known m path (some inode) h = h
unidentified-known m path none h =
    get-insert_self (allocate_inode m).0.by_path path (allocate_inode m).1

normal-known :
    (m : InodeMap) (path : List ℕ) (identity : Option FileIdentity)
    → Map.get (inode_for_normal m path identity).0.by_path path
      ≡ some (inode_for_normal m path identity).1
normal-known m path none = unidentified-known m path _ refl
normal-known m path (some identity) = identified-known m path identity _ _ refl

known-normal :
    (m : InodeMap) (path : List ℕ) (identity : Option FileIdentity) (inode : ℕ)
    → Map.get m.by_path path ≡ some inode
    → (inode_for_normal m path identity).1 ≡ inode
known-normal m path none inode h = rw h refl
known-normal m path (some identity) inode h = rw h refl

-- A path that is asked for again has the inode it had, whatever identities it comes with.
pub inode_for-again :
    (m : InodeMap) (path : List ℕ) (identity again : Option FileIdentity)
    → (inode_for (inode_for m path identity).0 path again).1 ≡ (inode_for m path identity).1
unfolding inode_for
inode_for-again m path identity again = elim (Bool-cases (normalize_path path === root)) [
  | inl at_root ↦ rw at_root refl
  | inr below ↦ rw below (
      known-normal (inode_for_normal m (normalize_path path) identity).0 (normalize_path path) again
        _ (normal-known m (normalize_path path) identity))
]
