-- ===== src/Fuse/Adapter/Runs.antt =====
-- fs-fuse/src/lib.rs: the calls that the adapter offers, and runs of them.
use fabric_fs.Protocol.Invalidation.{Invalidation}
use fabric_fs.Prelude.{ℕ, List, [], ◌∷◌, Bool, Option}
use fabric_fs.Prelude.Int.{ℤ}
use fabric_fs.Fuse.Kernel.{new_kernel}
use fabric_fs.Fuse.Cache.Consistent.{IsConsistent, new-IsConsistent}
use fabric_fs.Fuse.Adapter.State.{FuseAdapter, AdapterState, new_state}
use fabric_fs.Fuse.Adapter.Nodes
use fabric_fs.Fuse.Adapter.Handles
use fabric_fs.Fuse.Adapter.Handles.{FuseSetlk}
use fabric_fs.Fuse.Adapter.Keeping.NodeCalls
use fabric_fs.Fuse.Adapter.Keeping.HandleCalls

pub data AdapterCall : Type 0 where
  lookup : ℕ → List ℕ → AdapterCall
  getattr : ℕ → AdapterCall
  readdir : ℕ → ℕ → ℕ → AdapterCall
  readdir_with_parent : ℕ → ℕ → ℕ → AdapterCall
  open_file : ℕ → ℕ → AdapterCall
  opendir : ℕ → ℕ → AdapterCall
  create : ℕ → List ℕ → ℕ → ℕ → AdapterCall
  rename : ℕ → List ℕ → ℕ → List ℕ → AdapterCall
  unlink : ℕ → List ℕ → AdapterCall
  mkdir : ℕ → List ℕ → ℕ → AdapterCall
  rmdir : ℕ → List ℕ → AdapterCall
  statfs : ℕ → AdapterCall
  getxattr : ℕ → List ℕ → ℕ → AdapterCall
  setxattr : ℕ → List ℕ → List ℕ → ℕ → AdapterCall
  listxattr : ℕ → ℕ → AdapterCall
  removexattr : ℕ → List ℕ → AdapterCall
  readlink : ℕ → AdapterCall
  symlink : ℕ → List ℕ → List ℕ → AdapterCall
  hardlink : ℕ → ℕ → List ℕ → AdapterCall
  setattr : ℕ → Option ℕ → Option ℕ → Option ℕ → Option ℕ → Option ℕ → AdapterCall
  forget : ℕ → ℕ → AdapterCall
  parent_inode : ℕ → AdapterCall
  apply_invalidation : Invalidation → AdapterCall
  read : ℕ → ℕ → ℕ → ℕ → AdapterCall
  write : ℕ → ℕ → ℕ → List ℕ → AdapterCall
  release : ℕ → ℕ → ℕ → AdapterCall
  flush : ℕ → ℕ → ℕ → AdapterCall
  fsync : ℕ → ℕ → Bool → AdapterCall
  fsyncdir : ℕ → ℕ → Bool → AdapterCall
  getlk : ℕ → ℕ → ℕ → ℕ → ℕ → ℕ → ℕ → AdapterCall
  setlk : ℕ → FuseSetlk → AdapterCall
  flock : ℕ → ℕ → ℕ → ℕ → AdapterCall
  copy_file_range : ℕ → ℕ → ℤ → ℕ → ℕ → ℤ → ℕ → ℕ → AdapterCall
  copy_file_range_for_reply_write : ℕ → ℕ → ℤ → ℕ → ℕ → ℤ → ℕ → ℕ → AdapterCall
  fallocate : ℕ → ℕ → ℤ → ℤ → ℤ → AdapterCall
  lseek : ℕ → ℕ → ℤ → ℕ → AdapterCall

-- The state after a call, whatever it answers.
unfoldable pub run_call :
    {C : Type 0} → FuseAdapter C → AdapterCall → AdapterState C → AdapterState C
run_call a (AdapterCall.lookup x1 x2) s = (Nodes.lookup a x1 x2 s).0
run_call a (AdapterCall.getattr x1) s = (Nodes.getattr a x1 s).0
run_call a (AdapterCall.readdir x1 x2 x3) s = (Nodes.readdir a x1 x2 x3 s).0
run_call a (AdapterCall.readdir_with_parent x1 x2 x3) s = (Nodes.readdir_with_parent a x1 x2 x3 s).0
run_call a (AdapterCall.open_file x1 x2) s = (Nodes.open_file a x1 x2 s).0
run_call a (AdapterCall.opendir x1 x2) s = (Nodes.opendir a x1 x2 s).0
run_call a (AdapterCall.create x1 x2 x3 x4) s = (Nodes.create a x1 x2 x3 x4 s).0
run_call a (AdapterCall.rename x1 x2 x3 x4) s = (Nodes.rename a x1 x2 x3 x4 s).0
run_call a (AdapterCall.unlink x1 x2) s = (Nodes.unlink a x1 x2 s).0
run_call a (AdapterCall.mkdir x1 x2 x3) s = (Nodes.mkdir a x1 x2 x3 s).0
run_call a (AdapterCall.rmdir x1 x2) s = (Nodes.rmdir a x1 x2 s).0
run_call a (AdapterCall.statfs x1) s = (Nodes.statfs a x1 s).0
run_call a (AdapterCall.getxattr x1 x2 x3) s = (Nodes.getxattr a x1 x2 x3 s).0
run_call a (AdapterCall.setxattr x1 x2 x3 x4) s = (Nodes.setxattr a x1 x2 x3 x4 s).0
run_call a (AdapterCall.listxattr x1 x2) s = (Nodes.listxattr a x1 x2 s).0
run_call a (AdapterCall.removexattr x1 x2) s = (Nodes.removexattr a x1 x2 s).0
run_call a (AdapterCall.readlink x1) s = (Nodes.readlink a x1 s).0
run_call a (AdapterCall.symlink x1 x2 x3) s = (Nodes.symlink a x1 x2 x3 s).0
run_call a (AdapterCall.hardlink x1 x2 x3) s = (Nodes.hardlink a x1 x2 x3 s).0
run_call a (AdapterCall.setattr x1 x2 x3 x4 x5 x6) s = (Nodes.setattr a x1 x2 x3 x4 x5 x6 s).0
run_call a (AdapterCall.forget x1 x2) s = (Nodes.forget x1 x2 s).0
run_call a (AdapterCall.parent_inode x1) s = (Nodes.parent_inode a x1 s).0
run_call a (AdapterCall.apply_invalidation v) s = (Nodes.apply_invalidation a v s).0
run_call a (AdapterCall.read x1 x2 x3 x4) s = (Handles.read a x1 x2 x3 x4 s).0
run_call a (AdapterCall.write x1 x2 x3 x4) s = (Handles.write a x1 x2 x3 x4 s).0
run_call a (AdapterCall.release x1 x2 x3) s = (Handles.release a x1 x2 x3 s).0
run_call a (AdapterCall.flush x1 x2 x3) s = (Handles.flush a x1 x2 x3 s).0
run_call a (AdapterCall.fsync x1 x2 x3) s = (Handles.fsync a x1 x2 x3 s).0
run_call a (AdapterCall.fsyncdir x1 x2 x3) s = (Handles.fsyncdir a x1 x2 x3 s).0
run_call a (AdapterCall.getlk x1 x2 x3 x4 x5 x6 x7) s = (Handles.getlk a x1 x2 x3 x4 x5 x6 x7 s).0
run_call a (AdapterCall.setlk x1 x2) s = (Handles.setlk a x1 x2 s).0
run_call a (AdapterCall.flock x1 x2 x3 x4) s = (Handles.flock a x1 x2 x3 x4 s).0
run_call a (AdapterCall.copy_file_range x1 x2 x3 x4 x5 x6 x7 x8) s =
    (Handles.copy_file_range a x1 x2 x3 x4 x5 x6 x7 x8 s).0
run_call a (AdapterCall.copy_file_range_for_reply_write x1 x2 x3 x4 x5 x6 x7 x8) s =
    (Handles.copy_file_range_for_reply_write a x1 x2 x3 x4 x5 x6 x7 x8 s).0
run_call a (AdapterCall.fallocate x1 x2 x3 x4 x5) s = (Handles.fallocate a x1 x2 x3 x4 x5 s).0
run_call a (AdapterCall.lseek x1 x2 x3 x4) s = (Handles.lseek a x1 x2 x3 x4 s).0

unfoldable pub run_calls :
    {C : Type 0} → FuseAdapter C → List AdapterCall → AdapterState C → AdapterState C
run_calls a [] s = s
run_calls a (c ∷ rest) s = run_calls a rest (run_call a c s)

run_call-IsConsistent :
    {C : Type 0} (a : FuseAdapter C) (c : AdapterCall) (s : AdapterState C)
    → IsConsistent s.kernel.cache
    → IsConsistent (run_call a c s).kernel.cache
unfolding run_call
run_call-IsConsistent a (AdapterCall.lookup x1 x2) s k = (NodeCalls.lookup-Keeps a x1 x2).keeps s k
run_call-IsConsistent a (AdapterCall.getattr x1) s k = (NodeCalls.getattr-Keeps a x1).keeps s k
run_call-IsConsistent a (AdapterCall.readdir x1 x2 x3) s k =
    (NodeCalls.readdir-Keeps a x1 x2 x3).keeps s k
run_call-IsConsistent a (AdapterCall.readdir_with_parent x1 x2 x3) s k =
    (NodeCalls.readdir_with_parent-Keeps a x1 x2 x3).keeps s k
run_call-IsConsistent a (AdapterCall.open_file x1 x2) s k =
    (NodeCalls.open_file-Keeps a x1 x2).keeps s k
run_call-IsConsistent a (AdapterCall.opendir x1 x2) s k =
    (NodeCalls.opendir-Keeps a x1 x2).keeps s k
run_call-IsConsistent a (AdapterCall.create x1 x2 x3 x4) s k =
    (NodeCalls.create-Keeps a x1 x2 x3 x4).keeps s k
run_call-IsConsistent a (AdapterCall.rename x1 x2 x3 x4) s k =
    (NodeCalls.rename-Keeps a x1 x2 x3 x4).keeps s k
run_call-IsConsistent a (AdapterCall.unlink x1 x2) s k = (NodeCalls.unlink-Keeps a x1 x2).keeps s k
run_call-IsConsistent a (AdapterCall.mkdir x1 x2 x3) s k =
    (NodeCalls.mkdir-Keeps a x1 x2 x3).keeps s k
run_call-IsConsistent a (AdapterCall.rmdir x1 x2) s k = (NodeCalls.rmdir-Keeps a x1 x2).keeps s k
run_call-IsConsistent a (AdapterCall.statfs x1) s k = (NodeCalls.statfs-Keeps a x1).keeps s k
run_call-IsConsistent a (AdapterCall.getxattr x1 x2 x3) s k =
    (NodeCalls.getxattr-Keeps a x1 x2 x3).keeps s k
run_call-IsConsistent a (AdapterCall.setxattr x1 x2 x3 x4) s k =
    (NodeCalls.setxattr-Keeps a x1 x2 x3 x4).keeps s k
run_call-IsConsistent a (AdapterCall.listxattr x1 x2) s k =
    (NodeCalls.listxattr-Keeps a x1 x2).keeps s k
run_call-IsConsistent a (AdapterCall.removexattr x1 x2) s k =
    (NodeCalls.removexattr-Keeps a x1 x2).keeps s k
run_call-IsConsistent a (AdapterCall.readlink x1) s k = (NodeCalls.readlink-Keeps a x1).keeps s k
run_call-IsConsistent a (AdapterCall.symlink x1 x2 x3) s k =
    (NodeCalls.symlink-Keeps a x1 x2 x3).keeps s k
run_call-IsConsistent a (AdapterCall.hardlink x1 x2 x3) s k =
    (NodeCalls.hardlink-Keeps a x1 x2 x3).keeps s k
run_call-IsConsistent a (AdapterCall.setattr x1 x2 x3 x4 x5 x6) s k =
    (NodeCalls.setattr-Keeps a x1 x2 x3 x4 x5 x6).keeps s k
run_call-IsConsistent a (AdapterCall.forget x1 x2) s k = (NodeCalls.forget-Keeps x1 x2).keeps s k
run_call-IsConsistent a (AdapterCall.parent_inode x1) s k =
    (NodeCalls.parent_inode-Keeps a x1).keeps s k
run_call-IsConsistent a (AdapterCall.apply_invalidation v) s k =
    (NodeCalls.apply_invalidation-Keeps a v).keeps s k
run_call-IsConsistent a (AdapterCall.read x1 x2 x3 x4) s k =
    (HandleCalls.read-Keeps a x1 x2 x3 x4).keeps s k
run_call-IsConsistent a (AdapterCall.write x1 x2 x3 x4) s k =
    (HandleCalls.write-Keeps a x1 x2 x3 x4).keeps s k
run_call-IsConsistent a (AdapterCall.release x1 x2 x3) s k =
    (HandleCalls.release-Keeps a x1 x2 x3).keeps s k
run_call-IsConsistent a (AdapterCall.flush x1 x2 x3) s k =
    (HandleCalls.flush-Keeps a x1 x2 x3).keeps s k
run_call-IsConsistent a (AdapterCall.fsync x1 x2 x3) s k =
    (HandleCalls.fsync-Keeps a x1 x2 x3).keeps s k
run_call-IsConsistent a (AdapterCall.fsyncdir x1 x2 x3) s k =
    (HandleCalls.fsyncdir-Keeps a x1 x2 x3).keeps s k
run_call-IsConsistent a (AdapterCall.getlk x1 x2 x3 x4 x5 x6 x7) s k =
    (HandleCalls.getlk-Keeps a x1 x2 x3 x4 x5 x6 x7).keeps s k
run_call-IsConsistent a (AdapterCall.setlk x1 x2) s k = (HandleCalls.setlk-Keeps a x1 x2).keeps s k
run_call-IsConsistent a (AdapterCall.flock x1 x2 x3 x4) s k =
    (HandleCalls.flock-Keeps a x1 x2 x3 x4).keeps s k
run_call-IsConsistent a (AdapterCall.copy_file_range x1 x2 x3 x4 x5 x6 x7 x8) s k =
    (HandleCalls.copy_file_range-Keeps a x1 x2 x3 x4 x5 x6 x7 x8).keeps s k
run_call-IsConsistent a (AdapterCall.copy_file_range_for_reply_write x1 x2 x3 x4 x5 x6 x7 x8) s k =
    (HandleCalls.copy_file_range_for_reply_write-Keeps a x1 x2 x3 x4 x5 x6 x7 x8).keeps s k
run_call-IsConsistent a (AdapterCall.fallocate x1 x2 x3 x4 x5) s k =
    (HandleCalls.fallocate-Keeps a x1 x2 x3 x4 x5).keeps s k
run_call-IsConsistent a (AdapterCall.lseek x1 x2 x3 x4) s k =
    (HandleCalls.lseek-Keeps a x1 x2 x3 x4).keeps s k

run_calls-IsConsistent :
    {C : Type 0} (a : FuseAdapter C) (calls : List AdapterCall) (s : AdapterState C)
    → IsConsistent s.kernel.cache
    → IsConsistent (run_calls a calls s).kernel.cache
unfolding run_calls
run_calls-IsConsistent a [] s k = k
run_calls-IsConsistent a (c ∷ rest) s k =
    run_calls-IsConsistent a rest (run_call a c s) (run_call-IsConsistent a c s k)

-- After any calls of a new adapter, whatever the server answered and whatever came from other clients,
-- the two directions of the cache agree.
pub new_run-IsConsistent :
    {C : Type 0} (a : FuseAdapter C) (calls : List AdapterCall) (connection : C)
    → IsConsistent (run_calls a calls (new_state connection)).kernel.cache
new_run-IsConsistent a calls connection =
    run_calls-IsConsistent a calls (new_state connection)
      (unfold new_state new_kernel in new-IsConsistent)
