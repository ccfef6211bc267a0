-- ===== src/Fuse/Adapter/Keeping/NodeCalls.antt =====
-- fs-fuse/src/lib.rs: the calls by the path of an inode or of a child.
use fabric_fs.Protocol.Invalidation.{Invalidation}
use fabric_fs.Fuse.Kernel.Sequence.{apply_invalidation-IsConsistent}
use fabric_fs.Fuse.Adapter.Keeping.{kernel_step-Keeps}
use fabric_fs.Fuse.Adapter.Nodes.{apply_invalidation}
use fabric_fs.Prelude.{
  ℕ, List, Option, none, some, Bool, true, false, ok, ◌||◌, ◌==◌, if◌then◌else◌, nat_eq,
  saturating_add,
}
use fabric_fs.Prelude.Map
use fabric_fs.Protocol.Messages.{FileAttr}
use fabric_fs.Protocol.Operation.{Operation}
use fabric_fs.Fuse.Cache
use fabric_fs.Fuse.Cache.{PathCache, paths_at, is_none, count_or_zero, add_lookup, insert_lookup}
use fabric_fs.Fuse.Cache.Consistent.{IsConsistent, maps, lists, insert-IsConsistent}
use fabric_fs.Fuse.Cache.Removing.{forget-IsConsistent}
use fabric_fs.Fuse.Kernel
use fabric_fs.Fuse.Kernel.{CacheKernel, remember_handle_path}
use fabric_fs.Fuse.Adapter.State.{FuseAdapter, lift, succeed, change_kernel, ◌>>=◌, ◌>>◌}
use fabric_fs.Fuse.Adapter.Payloads.{
  lookup_value, getattr_value, readdir_value, create_value, rename_value, unlink_value, mkdir_value,
  rmdir_value, statfs_value, getxattr_value, setxattr_value, listxattr_value, removexattr_value,
  readlink_value, symlink_value, hardlink_value, open_value, setattr_value,
}
use fabric_fs.Fuse.Adapter.Calling.{path_dto, take_payload, call, required_attr}
use fabric_fs.Fuse.Adapter.Keeping.{
  Keeps, bind-Keeps, lift-Keeps, read_kernel-Keeps, change_kernel-Keeps, asked-Keeps, call-Keeps,
  call_handle_bound-Keeps, drain-Keeps, path_for_inode-Keeps, path_for_handle-Keeps,
  child_path-Keeps,
}
use fabric_fs.Fuse.Adapter.Nodes.{
  FuseEntry, inserted, lookup, getattr, readdir_path, readdir, readdir_with_parent, open_with_kind,
  open_file, opendir, create, rename, unlink, mkdir, rmdir, some_stat, statfs, getxattr, setxattr,
  listxattr, removexattr, readlink, symlink, hardlink, setattr_request, setattr_by, setattr, forget,
  parent_inode,
}

counted-IsConsistent :
    (c : PathCache) (counts : Map.Map ℕ ℕ)
    → IsConsistent c
    → IsConsistent (record c { lookup_counts = counts })
counted-IsConsistent c counts k = record {
  agree = λ q j. unfold lists maps paths_at in k.agree q j;
}

add_lookup-IsConsistent :
    (c : PathCache) (inode count : ℕ) → IsConsistent c → IsConsistent (add_lookup c inode count)
unfolding add_lookup
add_lookup-IsConsistent c inode count k =
    step (inode == 0 || inode == 1 || count == 0 || is_none (Map.get c.inode_to_paths inode))
  where
    step :
        (b : Bool)
        → IsConsistent (
            if b then c else record c {
              lookup_counts =
                  Map.insert c.lookup_counts inode
                    (saturating_add (count_or_zero (Map.get c.lookup_counts inode)) count);
            })
    step true = k
    step false = counted-IsConsistent c _ k

insert_lookup-IsConsistent :
    (c : PathCache) (path : List ℕ) (inode count : ℕ)
    → IsConsistent c
    → IsConsistent (insert_lookup c path inode count)
unfolding insert_lookup
insert_lookup-IsConsistent c path inode count k =
    add_lookup-IsConsistent _ inode count (insert-IsConsistent c path inode k)

module _ {C : Type 0} where
  remember-Keeps :
      (inode handle : ℕ) (path : List ℕ)
      → Keeps {C = C} (change_kernel (λ k. remember_handle_path k inode handle path))
  unfolding remember_handle_path
  remember-Keeps inode handle path = change_kernel-Keeps _ (λ k c. c)

  inserted-Keeps : (path : List ℕ) (inode : ℕ) → Keeps {C = C} (change_kernel (inserted path inode))
  inserted-Keeps path inode =
      change_kernel-Keeps (inserted path inode)
        (λ k c. insert_lookup-IsConsistent k.cache path inode 1 c)

  -- A new entry comes into the cache with one lookup.
  entry-Keeps :
      (operation : Operation) (path : List ℕ) (attr : Option FileAttr)
      → Keeps {C = C} (do
        entry ← lift (required_attr attr operation)
        change_kernel (inserted path entry.inode)
        succeed {A = FuseEntry} (record { attr = entry }))
  entry-Keeps operation path attr = bind-Keeps (lift-Keeps (required_attr attr operation)) (λ entry.
      bind-Keeps (inserted-Keeps path entry.inode) (λ u. lift-Keeps (ok (record { attr = entry }))))

  pub forget-Keeps : (inode nlookup : ℕ) → Keeps {C = C} (forget inode nlookup)
  unfolding forget
  forget-Keeps inode nlookup =
      change_kernel-Keeps _ (λ k c. forget-IsConsistent k.cache inode nlookup c)

module _ {C : Type 0} (a : FuseAdapter C) where
  pub apply_invalidation-Keeps : (v : Invalidation) → Keeps (apply_invalidation a v)
  unfolding apply_invalidation
  apply_invalidation-Keeps v =
      kernel_step-Keeps _ (λ k c. apply_invalidation-IsConsistent k a.namespace v true c)

  pub lookup-Keeps : (parent : ℕ) (name : List ℕ) → Keeps (lookup a parent name)
  unfolding lookup
  lookup-Keeps parent name =
      asked-Keeps _ path_dto (λ path dto. call a _) lookup_value _ (child_path-Keeps a parent name)
        (λ path dto. call-Keeps a _) (λ path value. entry-Keeps _ path value.attr)

  pub getattr-Keeps : (inode : ℕ) → Keeps (getattr a inode)
  unfolding getattr
  getattr-Keeps inode =
      asked-Keeps _ path_dto (λ path dto. call a _) getattr_value _ (path_for_inode-Keeps a inode)
        (λ path dto. call-Keeps a _)
        (λ path value. bind-Keeps (lift-Keeps (required_attr value.attr _)) (λ attr. lift-Keeps _))

  readdir_path-Keeps :
      (path : List ℕ) (offset max_entries : ℕ) → Keeps (readdir_path a path offset max_entries)
  unfolding readdir_path
  readdir_path-Keeps path offset max_entries = bind-Keeps (lift-Keeps (path_dto path)) (λ dto.
      bind-Keeps (call-Keeps a _) (λ r.
        bind-Keeps (lift-Keeps (take_payload r))
          (λ payload. bind-Keeps (lift-Keeps (readdir_value payload)) (λ value. lift-Keeps _))))

  pub readdir-Keeps : (inode offset max_entries : ℕ) → Keeps (readdir a inode offset max_entries)
  unfolding readdir
  readdir-Keeps inode offset max_entries =
      bind-Keeps (path_for_inode-Keeps a inode) (λ path. readdir_path-Keeps path offset max_entries)

  pub readdir_with_parent-Keeps :
      (inode offset max_entries : ℕ) → Keeps (readdir_with_parent a inode offset max_entries)
  unfolding readdir_with_parent
  readdir_with_parent-Keeps inode offset max_entries = bind-Keeps (drain-Keeps a) (λ u.
      bind-Keeps (read_kernel-Keeps (λ k. Kernel.parent_and_path_for_inode k inode))
        (λ p. bind-Keeps (readdir_path-Keeps p.1 offset max_entries) (λ entries. lift-Keeps _)))

  pub open_with_kind-Keeps :
      (inode : ℕ) (flags : ℕ) (kind : ℕ) → Keeps (open_with_kind a inode flags kind)
  unfolding open_with_kind
  open_with_kind-Keeps inode flags kind =
      asked-Keeps _ path_dto (λ path dto. call a _) open_value _ (path_for_inode-Keeps a inode)
        (λ path dto. call-Keeps a _)
        (λ path value.
          bind-Keeps (remember-Keeps inode value.handle path)
            (λ u. lift-Keeps (ok (record { handle = value.handle; flags = value.flags }))))

  pub open_file-Keeps : (inode flags : ℕ) → Keeps (open_file a inode flags)
  unfolding open_file
  open_file-Keeps inode flags = open_with_kind-Keeps inode flags 1

  pub opendir-Keeps : (inode flags : ℕ) → Keeps (opendir a inode flags)
  unfolding opendir
  opendir-Keeps inode flags = open_with_kind-Keeps inode flags 2

  pub create-Keeps :
      (parent : ℕ) (name : List ℕ) (flags : ℕ) (mode : ℕ) → Keeps (create a parent name flags mode)
  unfolding create
  create-Keeps parent name flags mode =
      asked-Keeps _ path_dto (λ path dto. call a _) create_value _ (child_path-Keeps a parent name)
        (λ path dto. call-Keeps a _)
        (λ path value. bind-Keeps (lift-Keeps (required_attr value.attr Operation.create)) (λ attr.
          bind-Keeps (inserted-Keeps path attr.inode) (λ u.
            bind-Keeps (remember-Keeps attr.inode value.handle path) (λ v.
              lift-Keeps
                (ok (record { attr = attr }, record { handle = value.handle; flags = 0 }))))))

  pub rename-Keeps :
      (old_parent : ℕ) (old_name : List ℕ) (new_parent : ℕ) (new_name : List ℕ)
      → Keeps (rename a old_parent old_name new_parent new_name)
  unfolding rename
  rename-Keeps old_parent old_name new_parent new_name = bind-Keeps (drain-Keeps a) (λ u.
      bind-Keeps
        (read_kernel-Keeps (λ k. Kernel.rename_paths k old_parent old_name new_parent new_name))
        (λ p. bind-Keeps (lift-Keeps (path_dto p.0)) (λ old.
          bind-Keeps (lift-Keeps (path_dto p.1)) (λ new. bind-Keeps (call-Keeps a _) (λ r.
            bind-Keeps (lift-Keeps (take_payload r)) (λ payload.
              bind-Keeps (lift-Keeps (rename_value payload)) (λ value. lift-Keeps _)))))))

  pub unlink-Keeps : (parent : ℕ) (name : List ℕ) → Keeps (unlink a parent name)
  unfolding unlink
  unlink-Keeps parent name =
      asked-Keeps _ path_dto (λ path dto. call a _) unlink_value _ (child_path-Keeps a parent name)
        (λ path dto. call-Keeps a _) (λ path value. lift-Keeps _)

  pub mkdir-Keeps : (parent : ℕ) (name : List ℕ) (mode : ℕ) → Keeps (mkdir a parent name mode)
  unfolding mkdir
  mkdir-Keeps parent name mode =
      asked-Keeps _ path_dto (λ path dto. call a _) mkdir_value _ (child_path-Keeps a parent name)
        (λ path dto. call-Keeps a _) (λ path value. entry-Keeps _ path value.attr)

  pub rmdir-Keeps : (parent : ℕ) (name : List ℕ) → Keeps (rmdir a parent name)
  unfolding rmdir
  rmdir-Keeps parent name =
      asked-Keeps _ path_dto (λ path dto. call a _) rmdir_value _ (child_path-Keeps a parent name)
        (λ path dto. call-Keeps a _) (λ path value. lift-Keeps _)

  pub statfs-Keeps : (inode : ℕ) → Keeps (statfs a inode)
  unfolding statfs
  statfs-Keeps inode =
      asked-Keeps _ path_dto (λ path dto. call a _) statfs_value _ (path_for_inode-Keeps a inode)
        (λ path dto. call-Keeps a _) (λ path value. lift-Keeps (some_stat value.stat))

  pub getxattr-Keeps : (inode : ℕ) (name : List ℕ) (size : ℕ) → Keeps (getxattr a inode name size)
  unfolding getxattr
  getxattr-Keeps inode name size =
      asked-Keeps _ path_dto (λ path dto. call a _) getxattr_value _ (path_for_inode-Keeps a inode)
        (λ path dto. call-Keeps a _) (λ path value. lift-Keeps _)

  pub setxattr-Keeps :
      (inode : ℕ) (name : List ℕ) (content : List ℕ) (flags : ℕ)
      → Keeps (setxattr a inode name content flags)
  unfolding setxattr
  setxattr-Keeps inode name content flags =
      asked-Keeps _ path_dto (λ path dto. call a _) setxattr_value _ (path_for_inode-Keeps a inode)
        (λ path dto. call-Keeps a _) (λ path value. lift-Keeps _)

  pub listxattr-Keeps : (inode : ℕ) (size : ℕ) → Keeps (listxattr a inode size)
  unfolding listxattr
  listxattr-Keeps inode size =
      asked-Keeps _ path_dto (λ path dto. call a _) listxattr_value _ (path_for_inode-Keeps a inode)
        (λ path dto. call-Keeps a _) (λ path value. lift-Keeps _)

  pub removexattr-Keeps : (inode : ℕ) (name : List ℕ) → Keeps (removexattr a inode name)
  unfolding removexattr
  removexattr-Keeps inode name =
      asked-Keeps _ path_dto (λ path dto. call a _) removexattr_value _
        (path_for_inode-Keeps a inode) (λ path dto. call-Keeps a _) (λ path value. lift-Keeps _)

  pub readlink-Keeps : (inode : ℕ) → Keeps (readlink a inode)
  unfolding readlink
  readlink-Keeps inode =
      asked-Keeps _ path_dto (λ path dto. call a _) readlink_value _ (path_for_inode-Keeps a inode)
        (λ path dto. call-Keeps a _) (λ path value. lift-Keeps _)

  pub symlink-Keeps :
      (parent : ℕ) (name : List ℕ) (target : List ℕ) → Keeps (symlink a parent name target)
  unfolding symlink
  symlink-Keeps parent name target =
      asked-Keeps _ path_dto (λ path dto. call a _) symlink_value _ (child_path-Keeps a parent name)
        (λ path dto. call-Keeps a _) (λ path value. entry-Keeps _ path value.attr)

  pub hardlink-Keeps :
      (inode new_parent : ℕ) (new_name : List ℕ) → Keeps (hardlink a inode new_parent new_name)
  unfolding hardlink
  hardlink-Keeps inode new_parent new_name = bind-Keeps (drain-Keeps a) (λ u.
      bind-Keeps (read_kernel-Keeps (λ k. Kernel.hardlink_paths k inode new_parent new_name)) (λ p.
        bind-Keeps (lift-Keeps (path_dto p.0)) (λ existing.
          bind-Keeps (lift-Keeps (path_dto p.1)) (λ new. bind-Keeps (call-Keeps a _) (λ r.
            bind-Keeps (lift-Keeps (take_payload r)) (λ payload.
              bind-Keeps (lift-Keeps (hardlink_value payload))
                (λ value. entry-Keeps _ p.1 value.attr)))))))

  setattr_by-Keeps :
      (inode : ℕ) (handle mode uid gid size : Option ℕ)
      → Keeps (setattr_by a inode handle mode uid gid size)
  unfolding setattr_request
  setattr_by-Keeps inode (some handle) mode uid gid size =
      bind-Keeps (path_for_handle-Keeps a inode handle) (λ path.
        bind-Keeps (bind-Keeps (lift-Keeps (path_dto path)) (λ dto. lift-Keeps _))
          (λ payload. call_handle_bound-Keeps a payload))
  setattr_by-Keeps inode none mode uid gid size = bind-Keeps (path_for_inode-Keeps a inode) (λ path.
      bind-Keeps (bind-Keeps (lift-Keeps (path_dto path)) (λ dto. lift-Keeps _))
        (λ payload. call-Keeps a payload))

  pub setattr-Keeps :
      (inode : ℕ) (handle mode uid gid size : Option ℕ)
      → Keeps (setattr a inode handle mode uid gid size)
  unfolding setattr
  setattr-Keeps inode handle mode uid gid size =
      bind-Keeps (setattr_by-Keeps inode handle mode uid gid size) (λ r.
        bind-Keeps (lift-Keeps (take_payload r)) (λ payload.
          bind-Keeps (lift-Keeps (setattr_value payload)) (λ value.
            bind-Keeps (lift-Keeps (required_attr value.attr Operation.setattr))
              (λ attr. lift-Keeps _))))

  pub parent_inode-Keeps : (inode : ℕ) → Keeps (parent_inode a inode)
  unfolding parent_inode
  parent_inode-Keeps inode =
      bind-Keeps (drain-Keeps a) (λ u. read_kernel-Keeps (λ k. Cache.parent_inode k.cache inode))
