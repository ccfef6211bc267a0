-- ===== src/Fuse/Adapter/Nodes.antt =====
-- fs-fuse/src/lib.rs: the calls of the adapter by the path of an inode or of a child. Names, values
-- and targets are bytes.
use fabric_fs.Prelude.{Bool, true, Result, ok, err}
use fabric_fs.Protocol.Invalidation.{Invalidation}
use fabric_fs.Fuse.Adapter.Calling.{kernel_step}
use fabric_fs.Prelude.{ℕ, List, Option, none, some, Result, ok, err}
use fabric_fs.Protocol.Operation.{Operation}
use fabric_fs.Protocol.Messages.{FileAttr, DirectoryEntry, StatFs}
use fabric_fs.Protocol.RequestPayload.{RequestPayload}
use fabric_fs.Protocol.ResponseEnvelope.{ResponseEnvelope}
use fabric_fs.Fuse.Cache
use fabric_fs.Fuse.Cache.{FuseError, protocol_text, response}
use fabric_fs.Fuse.Kernel
use fabric_fs.Fuse.Kernel.{CacheKernel, remember_handle_path, forget_handle_path, with_cache}
use fabric_fs.Fuse.Adapter.State.{
  FuseAdapter, Adapt, ◌>>=◌, ◌>>◌, succeed, lift, read_kernel, change_kernel,
}
use fabric_fs.Fuse.Adapter.Calling.{
  path_dto, take_payload, required_attr, call, call_handle_bound, drain_remote_invalidations,
  path_for_inode, path_for_handle, child_path,
}
use fabric_fs.Fuse.Adapter.Payloads.{
  lookup_value, getattr_value, readdir_value, create_value, rename_value, unlink_value, mkdir_value,
  rmdir_value, statfs_value, getxattr_value, setxattr_value, listxattr_value, removexattr_value,
  readlink_value, symlink_value, hardlink_value, open_value, setattr_value,
}

pub record FuseEntry : Type 0 where
  pub attr : FileAttr

pub record FuseHandle : Type 0 where
  pub handle : ℕ
  pub flags : ℕ

-- `cache.insert_lookup(path, inode, 1)`
abbrev pub inserted : List ℕ → ℕ → CacheKernel → CacheKernel
inserted path inode k = with_cache k (Cache.insert_lookup k.cache path inode 1)

unfoldable pub lookup : {C : Type 0} → FuseAdapter C → ℕ → List ℕ → Adapt C FuseEntry
lookup a parent name = do
  path ← child_path a parent name
  dto ← lift (path_dto path)
  r ← call a (RequestPayload.lookup (record { path = some dto }))
  payload ← lift (take_payload r)
  value ← lift (lookup_value payload)
  attr ← lift (required_attr value.attr Operation.lookup)
  change_kernel (inserted path attr.inode)
  succeed (record { attr = attr })

unfoldable pub getattr : {C : Type 0} → FuseAdapter C → ℕ → Adapt C FuseEntry
getattr a inode = do
  path ← path_for_inode a inode
  dto ← lift (path_dto path)
  r ← call a (RequestPayload.getattr (record { path = some dto }))
  payload ← lift (take_payload r)
  value ← lift (getattr_value payload)
  attr ← lift (required_attr value.attr Operation.getattr)
  succeed (record { attr = attr })

unfoldable pub readdir_path :
    {C : Type 0} → FuseAdapter C → List ℕ → ℕ → ℕ → Adapt C (List DirectoryEntry)
readdir_path a path offset max_entries = do
  dto ← lift (path_dto path)
  r ← call a (
      RequestPayload.readdir
        (record { path = some dto; offset = offset; max_entries = max_entries }))
  payload ← lift (take_payload r)
  value ← lift (readdir_value payload)
  succeed value.entries

unfoldable pub readdir : {C : Type 0} → FuseAdapter C → ℕ → ℕ → ℕ → Adapt C (List DirectoryEntry)
readdir a inode offset max_entries = do
  path ← path_for_inode a inode
  readdir_path a path offset max_entries

unfoldable pub readdir_with_parent :
    {C : Type 0} → FuseAdapter C → ℕ → ℕ → ℕ → Adapt C (ℕ × List DirectoryEntry)
readdir_with_parent a inode offset max_entries = do
  drain_remote_invalidations a
  (parent, path) ← read_kernel (λ k. Kernel.parent_and_path_for_inode k inode)
  entries ← readdir_path a path offset max_entries
  succeed (parent, entries)

-- The number of an `OpenKind` on the wire.
unfoldable pub open_with_kind : {C : Type 0} → FuseAdapter C → ℕ → ℕ → ℕ → Adapt C FuseHandle
open_with_kind a inode flags kind = do
  path ← path_for_inode a inode
  dto ← lift (path_dto path)
  r ← call a (RequestPayload.«open» (record { path = some dto; flags = flags; kind = kind }))
  payload ← lift (take_payload r)
  value ← lift (open_value payload)
  change_kernel (λ k. remember_handle_path k inode value.handle path)
  succeed (record { handle = value.handle; flags = value.flags })

unfoldable pub open_file : {C : Type 0} → FuseAdapter C → ℕ → ℕ → Adapt C FuseHandle
open_file a inode flags = open_with_kind a inode flags 1

unfoldable pub opendir : {C : Type 0} → FuseAdapter C → ℕ → ℕ → Adapt C FuseHandle
opendir a inode flags = open_with_kind a inode flags 2

unfoldable pub create :
    {C : Type 0} → FuseAdapter C → ℕ → List ℕ → ℕ → ℕ → Adapt C (FuseEntry × FuseHandle)
create a parent name flags mode = do
  path ← child_path a parent name
  dto ← lift (path_dto path)
  r ← call a (RequestPayload.create (record { path = some dto; flags = flags; mode = mode }))
  payload ← lift (take_payload r)
  value ← lift (create_value payload)
  attr ← lift (required_attr value.attr Operation.create)
  change_kernel (inserted path attr.inode)
  change_kernel (λ k. remember_handle_path k attr.inode value.handle path)
  succeed (record { attr = attr }, record { handle = value.handle; flags = 0 })

unfoldable pub rename : {C : Type 0} → FuseAdapter C → ℕ → List ℕ → ℕ → List ℕ → Adapt C (Unit {0})
rename a old_parent old_name new_parent new_name = do
  drain_remote_invalidations a
  (old_path, new_path) ←
      read_kernel (λ k. Kernel.rename_paths k old_parent old_name new_parent new_name)
  old ← lift (path_dto old_path)
  new ← lift (path_dto new_path)
  r ← call a (RequestPayload.rename (record { old_path = some old; new_path = some new }))
  payload ← lift (take_payload r)
  value ← lift (rename_value payload)
  succeed tt

unfoldable pub unlink : {C : Type 0} → FuseAdapter C → ℕ → List ℕ → Adapt C (Unit {0})
unlink a parent name = do
  path ← child_path a parent name
  dto ← lift (path_dto path)
  r ← call a (RequestPayload.unlink (record { path = some dto }))
  payload ← lift (take_payload r)
  value ← lift (unlink_value payload)
  succeed tt

unfoldable pub mkdir : {C : Type 0} → FuseAdapter C → ℕ → List ℕ → ℕ → Adapt C FuseEntry
mkdir a parent name mode = do
  path ← child_path a parent name
  dto ← lift (path_dto path)
  r ← call a (RequestPayload.mkdir (record { path = some dto; mode = mode }))
  payload ← lift (take_payload r)
  value ← lift (mkdir_value payload)
  attr ← lift (required_attr value.attr Operation.mkdir)
  change_kernel (inserted path attr.inode)
  succeed (record { attr = attr })

unfoldable pub rmdir : {C : Type 0} → FuseAdapter C → ℕ → List ℕ → Adapt C (Unit {0})
rmdir a parent name = do
  path ← child_path a parent name
  dto ← lift (path_dto path)
  r ← call a (RequestPayload.rmdir (record { path = some dto }))
  payload ← lift (take_payload r)
  value ← lift (rmdir_value payload)
  succeed tt

abbrev pub some_stat : Option StatFs → Result FuseError StatFs
some_stat (some stat) = ok stat
some_stat none = err (protocol_text "missing statfs payload")

unfoldable pub statfs : {C : Type 0} → FuseAdapter C → ℕ → Adapt C StatFs
statfs a inode = do
  path ← path_for_inode a inode
  dto ← lift (path_dto path)
  r ← call a (RequestPayload.statfs (record { path = some dto }))
  payload ← lift (take_payload r)
  value ← lift (statfs_value payload)
  lift (some_stat value.stat)

unfoldable pub getxattr : {C : Type 0} → FuseAdapter C → ℕ → List ℕ → ℕ → Adapt C (List ℕ)
getxattr a inode name size = do
  path ← path_for_inode a inode
  dto ← lift (path_dto path)
  r ← call a (RequestPayload.getxattr (record { path = some dto; name = name; size = size }))
  payload ← lift (take_payload r)
  value ← lift (getxattr_value payload)
  succeed value.value

unfoldable pub setxattr :
    {C : Type 0} → FuseAdapter C → ℕ → List ℕ → List ℕ → ℕ → Adapt C (Unit {0})
setxattr a inode name content flags = do
  path ← path_for_inode a inode
  dto ← lift (path_dto path)
  r ← call a (
      RequestPayload.setxattr
        (record { path = some dto; name = name; value = content; flags = flags }))
  payload ← lift (take_payload r)
  value ← lift (setxattr_value payload)
  succeed tt

unfoldable pub listxattr : {C : Type 0} → FuseAdapter C → ℕ → ℕ → Adapt C (List (List ℕ))
listxattr a inode size = do
  path ← path_for_inode a inode
  dto ← lift (path_dto path)
  r ← call a (RequestPayload.listxattr (record { path = some dto; size = size }))
  payload ← lift (take_payload r)
  value ← lift (listxattr_value payload)
  succeed value.names

unfoldable pub removexattr : {C : Type 0} → FuseAdapter C → ℕ → List ℕ → Adapt C (Unit {0})
removexattr a inode name = do
  path ← path_for_inode a inode
  dto ← lift (path_dto path)
  r ← call a (RequestPayload.removexattr (record { path = some dto; name = name }))
  payload ← lift (take_payload r)
  value ← lift (removexattr_value payload)
  succeed tt

unfoldable pub readlink : {C : Type 0} → FuseAdapter C → ℕ → Adapt C (List ℕ)
readlink a inode = do
  path ← path_for_inode a inode
  dto ← lift (path_dto path)
  r ← call a (RequestPayload.readlink (record { path = some dto }))
  payload ← lift (take_payload r)
  value ← lift (readlink_value payload)
  succeed value.target

unfoldable pub symlink : {C : Type 0} → FuseAdapter C → ℕ → List ℕ → List ℕ → Adapt C FuseEntry
symlink a parent name target = do
  path ← child_path a parent name
  dto ← lift (path_dto path)
  r ← call a (RequestPayload.symlink (record { path = some dto; target = target }))
  payload ← lift (take_payload r)
  value ← lift (symlink_value payload)
  attr ← lift (required_attr value.attr Operation.symlink)
  change_kernel (inserted path attr.inode)
  succeed (record { attr = attr })

unfoldable pub hardlink : {C : Type 0} → FuseAdapter C → ℕ → ℕ → List ℕ → Adapt C FuseEntry
hardlink a inode new_parent new_name = do
  drain_remote_invalidations a
  (existing_path, new_path) ← read_kernel (λ k. Kernel.hardlink_paths k inode new_parent new_name)
  existing ← lift (path_dto existing_path)
  new ← lift (path_dto new_path)
  r ←
      call a
        (RequestPayload.hardlink (record { existing_path = some existing; new_path = some new }))
  payload ← lift (take_payload r)
  value ← lift (hardlink_value payload)
  attr ← lift (required_attr value.attr Operation.hardlink)
  change_kernel (inserted new_path attr.inode)
  succeed (record { attr = attr })

unfoldable pub setattr_request :
    {C : Type 0}
    → FuseAdapter C
    → List ℕ
    → Option ℕ
    → Option ℕ
    → Option ℕ
    → Option ℕ
    → Option ℕ
    → Adapt C RequestPayload
setattr_request a path handle mode uid gid size = do
  dto ← lift (path_dto path)
  succeed (
      RequestPayload.setattr (record {
        path = some dto;
        mode = mode;
        uid = uid;
        gid = gid;
        size = size;
        handle = handle;
      }))

-- With a handle, the path is the handle's, and a stale cache is no hindrance.
abbrev pub setattr_by :
    {C : Type 0}
    → FuseAdapter C
    → ℕ
    → Option ℕ
    → Option ℕ
    → Option ℕ
    → Option ℕ
    → Option ℕ
    → Adapt C ResponseEnvelope
setattr_by a inode (some handle) mode uid gid size = do
  path ← path_for_handle a inode handle
  payload ← setattr_request a path (some handle) mode uid gid size
  call_handle_bound a payload
setattr_by a inode none mode uid gid size = do
  path ← path_for_inode a inode
  payload ← setattr_request a path none mode uid gid size
  call a payload

unfoldable pub setattr :
    {C : Type 0}
    → FuseAdapter C
    → ℕ
    → Option ℕ
    → Option ℕ
    → Option ℕ
    → Option ℕ
    → Option ℕ
    → Adapt C FuseEntry
setattr a inode handle mode uid gid size = do
  r ← setattr_by a inode handle mode uid gid size
  payload ← lift (take_payload r)
  value ← lift (setattr_value payload)
  attr ← lift (required_attr value.attr Operation.setattr)
  succeed (record { attr = attr })

unfoldable pub forget : {C : Type 0} → ℕ → ℕ → Adapt C (Unit {0})
forget inode nlookup = change_kernel (λ k. with_cache k (Cache.forget k.cache inode nlookup))

abbrev pub without_outcome : Result FuseError Bool → Result FuseError (Unit {0})
without_outcome (ok full_resync) = ok tt
without_outcome (err e) = err e

unfoldable pub apply_invalidation : {C : Type 0} → FuseAdapter C → Invalidation → Adapt C (Unit {0})
apply_invalidation a v = kernel_step (λ k. (
  (Kernel.apply_invalidation k a.namespace v true).0,
  without_outcome (Kernel.apply_invalidation k a.namespace v true).1,
))

unfoldable pub parent_inode : {C : Type 0} → FuseAdapter C → ℕ → Adapt C ℕ
parent_inode a inode =
    drain_remote_invalidations a >> read_kernel (λ k. Cache.parent_inode k.cache inode)
