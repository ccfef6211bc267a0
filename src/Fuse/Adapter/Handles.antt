-- ===== src/Fuse/Adapter/Handles.antt =====
-- fs-fuse/src/lib.rs: the calls of the adapter that are bound to an open handle. They go on while the
-- cache is stale. A lock type, a flock operation and a whence are numbers of the protocol.
use fabric_fs.Prelude.{
  ℕ, List, Bool, not, ◌==◌, ltb, min, if◌then◌else◌, Option, some, Result, ok, err,
}
use fabric_fs.Prelude.Int.{ℤ}
use fabric_fs.Protocol.Errno.{not_supported}
use fabric_fs.Protocol.Messages.{FileLock}
use fabric_fs.Protocol.RequestPayload.{RequestPayload}
use fabric_fs.Fuse.Cache.{FuseError, protocol_text, response}
use fabric_fs.Fuse.Kernel
use fabric_fs.Fuse.Kernel.{CacheKernel, remember_handle_path, forget_handle_path, with_cache}
use fabric_fs.Fuse.Adapter.State.{
  FuseAdapter, AdapterState, Adapt, ◌>>=◌, ◌>>◌, succeed, fail, lift, read_kernel,
}
use fabric_fs.Fuse.Adapter.Calling.{
  path_dto, take_payload, call_handle_bound, call_release, drain_remote_invalidations,
  path_for_handle,
}
use fabric_fs.Fuse.Adapter.Payloads.{
  read_value, write_value, release_value, flush_value, fsync_value, fsyncdir_value, getlk_value,
  setlk_value, flock_value, copy_file_range_value, fallocate_value, lseek_value,
}

unfoldable pub read : {C : Type 0} → FuseAdapter C → ℕ → ℕ → ℕ → ℕ → Adapt C (List ℕ)
read a inode handle offset size = do
  path ← path_for_handle a inode handle
  dto ← lift (path_dto path)
  r ← call_handle_bound a (
      RequestPayload.read
        (record { path = some dto; handle = handle; offset = offset; size = size }))
  payload ← lift (take_payload r)
  value ← lift (read_value payload)
  succeed value.content

unfoldable pub write : {C : Type 0} → FuseAdapter C → ℕ → ℕ → ℕ → List ℕ → Adapt C ℕ
write a inode handle offset content = do
  path ← path_for_handle a inode handle
  dto ← lift (path_dto path)
  r ← call_handle_bound a (
      RequestPayload.write
        (record { path = some dto; handle = handle; offset = offset; content = content }))
  payload ← lift (take_payload r)
  value ← lift (write_value payload)
  succeed value.bytes_written

abbrev pub forgotten :
    {C A : Type 0}
    → ℕ
    → ℕ
    → AdapterState C × Result FuseError A
    → AdapterState C × Result FuseError A
forgotten inode handle (s, r) = (record s { kernel = forget_handle_path s.kernel inode handle }, r)

abbrev pub and_forget : {C A : Type 0} → ℕ → ℕ → Adapt C A → Adapt C A
and_forget inode handle m = λ s. forgotten inode handle (m s)

-- The handle is forgotten whether or not the server released it.
unfoldable pub release : {C : Type 0} → FuseAdapter C → ℕ → ℕ → ℕ → Adapt C (Unit {0})
release a inode handle flags = do
  path ← read_kernel (λ k. Kernel.path_for_handle_bound_call k inode handle)
  dto ← lift (path_dto path)
  r ← and_forget inode handle (
      call_release a
        (RequestPayload.release (record { path = some dto; handle = handle; flags = flags })))
  payload ← lift (take_payload r)
  value ← lift (release_value payload)
  succeed tt

unfoldable pub flush : {C : Type 0} → FuseAdapter C → ℕ → ℕ → ℕ → Adapt C (Unit {0})
flush a inode handle lock_owner = do
  path ← path_for_handle a inode handle
  dto ← lift (path_dto path)
  r ←
      call_handle_bound a (
        RequestPayload.flush (record { path = some dto; handle = handle; lock_owner = lock_owner }))
  payload ← lift (take_payload r)
  value ← lift (flush_value payload)
  succeed tt

unfoldable pub fsync : {C : Type 0} → FuseAdapter C → ℕ → ℕ → Bool → Adapt C (Unit {0})
fsync a inode handle datasync = do
  path ← path_for_handle a inode handle
  dto ← lift (path_dto path)
  r ←
      call_handle_bound a
        (RequestPayload.fsync (record { path = some dto; handle = handle; datasync = datasync }))
  payload ← lift (take_payload r)
  value ← lift (fsync_value payload)
  succeed tt

unfoldable pub fsyncdir : {C : Type 0} → FuseAdapter C → ℕ → ℕ → Bool → Adapt C (Unit {0})
fsyncdir a inode handle datasync = do
  path ← path_for_handle a inode handle
  dto ← lift (path_dto path)
  r ←
      call_handle_bound a
        (RequestPayload.fsyncdir (record { path = some dto; handle = handle; datasync = datasync }))
  payload ← lift (take_payload r)
  value ← lift (fsyncdir_value payload)
  succeed tt

unfoldable pub getlk :
    {C : Type 0} → FuseAdapter C → ℕ → ℕ → ℕ → ℕ → ℕ → ℕ → ℕ → Adapt C (Option FileLock)
getlk a inode handle owner start end typ pid = do
  path ← path_for_handle a inode handle
  dto ← lift (path_dto path)
  r ← call_handle_bound a (
      RequestPayload.getlk (record {
        path = some dto;
        handle = handle;
        owner = owner;
        start = start;
        end = end;
        typ = typ;
        pid = pid;
      }))
  payload ← lift (take_payload r)
  value ← lift (getlk_value payload)
  succeed value.lock

pub record FuseSetlk : Type 0 where
  pub handle : ℕ
  pub owner : ℕ
  pub start : ℕ
  pub end : ℕ
  pub typ : ℕ
  pub pid : ℕ
  pub wait : Bool

unfoldable pub setlk : {C : Type 0} → FuseAdapter C → ℕ → FuseSetlk → Adapt C (Unit {0})
setlk a inode lock = do
  path ← path_for_handle a inode lock.handle
  dto ← lift (path_dto path)
  r ← call_handle_bound a (
      RequestPayload.setlk (record {
        path = some dto;
        handle = lock.handle;
        owner = lock.owner;
        start = lock.start;
        end = lock.end;
        typ = lock.typ;
        pid = lock.pid;
        wait = lock.wait;
      }))
  payload ← lift (take_payload r)
  value ← lift (setlk_value payload)
  succeed tt

unfoldable pub flock : {C : Type 0} → FuseAdapter C → ℕ → ℕ → ℕ → ℕ → Adapt C (Unit {0})
flock a inode handle owner operation = do
  path ← path_for_handle a inode handle
  dto ← lift (path_dto path)
  r ← call_handle_bound a (
      RequestPayload.flock
        (record { path = some dto; handle = handle; owner = owner; operation = operation }))
  payload ← lift (take_payload r)
  value ← lift (flock_value payload)
  succeed tt

-- The paths come from the handles.
unfoldable pub copy_paths : {C : Type 0} → FuseAdapter C → ℕ → ℕ → ℤ → ℕ → ℕ → ℤ → ℕ → ℕ → Adapt C ℕ
copy_paths a input_inode input_handle input_offset output_inode output_handle output_offset length
      flags =
    do
      drain_remote_invalidations a
      (input_path, output_path) ←
          read_kernel (λ k.
            Kernel.copy_file_range_paths k input_inode input_handle output_inode output_handle)
      input ← lift (path_dto input_path)
      output ← lift (path_dto output_path)
      r ← call_handle_bound a (
          RequestPayload.copy_file_range (record {
            input_path = some input;
            input_handle = input_handle;
            input_offset = input_offset;
            output_path = some output;
            output_handle = output_handle;
            output_offset = output_offset;
            length = length;
            flags = flags;
          }))
      payload ← lift (take_payload r)
      value ← lift (copy_file_range_value payload)
      succeed value.bytes_copied

unfoldable pub copy_file_range :
    {C : Type 0} → FuseAdapter C → ℕ → ℕ → ℤ → ℕ → ℕ → ℤ → ℕ → ℕ → Adapt C ℕ
copy_file_range a input_inode input_handle input_offset output_inode output_handle output_offset
      length flags =
    if not (flags == 0)
    then fail (response not_supported "copy_file_range flags are not supported")
    else copy_paths a input_inode input_handle input_offset output_inode output_handle output_offset
        length flags

-- u32::MAX
abbrev pub max_reply_write_bytes : ℕ
max_reply_write_bytes = 4294967295

abbrev pub as_u32 : ℕ → Result FuseError ℕ
as_u32 n =
    if ltb max_reply_write_bytes n
    then err (protocol_text "copy_file_range response exceeded ReplyWrite capacity")
    else ok n

unfoldable pub copy_file_range_for_reply_write :
    {C : Type 0} → FuseAdapter C → ℕ → ℕ → ℤ → ℕ → ℕ → ℤ → ℕ → ℕ → Adapt C ℕ
copy_file_range_for_reply_write a input_inode input_handle input_offset output_inode output_handle
      output_offset length flags =
    do
      bytes_copied ←
          copy_file_range a input_inode input_handle input_offset output_inode output_handle
            output_offset (min length max_reply_write_bytes) flags
      lift (as_u32 bytes_copied)

unfoldable pub fallocate : {C : Type 0} → FuseAdapter C → ℕ → ℕ → ℤ → ℤ → ℤ → Adapt C (Unit {0})
fallocate a inode handle offset length mode = do
  path ← path_for_handle a inode handle
  dto ← lift (path_dto path)
  r ← call_handle_bound a (
      RequestPayload.fallocate (record {
        path = some dto;
        handle = handle;
        offset = offset;
        length = length;
        mode = mode;
      }))
  payload ← lift (take_payload r)
  value ← lift (fallocate_value payload)
  succeed tt

unfoldable pub lseek : {C : Type 0} → FuseAdapter C → ℕ → ℕ → ℤ → ℕ → Adapt C ℤ
lseek a inode handle offset whence = do
  path ← path_for_handle a inode handle
  dto ← lift (path_dto path)
  r ← call_handle_bound a (
      RequestPayload.lseek
        (record { path = some dto; handle = handle; offset = offset; whence = whence }))
  payload ← lift (take_payload r)
  value ← lift (lseek_value payload)
  succeed value.offset
