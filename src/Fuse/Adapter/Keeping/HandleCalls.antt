-- ===== src/Fuse/Adapter/Keeping/HandleCalls.antt =====
-- fs-fuse/src/lib.rs: the calls that are bound to an open handle.
use fabric_fs.Prelude.{ℕ, List, Bool, true, false, not, ◌==◌, min, if◌then◌else◌, err}
use fabric_fs.Prelude.Int.{ℤ}
use fabric_fs.Protocol.Errno.{not_supported}
use fabric_fs.Fuse.Cache.{response}
use fabric_fs.Fuse.Kernel
use fabric_fs.Fuse.Kernel.{forget_handle_path}
use fabric_fs.Fuse.Adapter.State.{FuseAdapter, Adapt, fail}
use fabric_fs.Fuse.Adapter.Payloads.{
  read_value, write_value, release_value, flush_value, fsync_value, fsyncdir_value, getlk_value,
  setlk_value, flock_value, copy_file_range_value, fallocate_value, lseek_value,
}
use fabric_fs.Fuse.Adapter.Calling.{path_dto, take_payload, call_handle_bound}
use fabric_fs.Fuse.Adapter.Keeping.{
  Keeps, bind-Keeps, lift-Keeps, read_kernel-Keeps, asked-Keeps, call_handle_bound-Keeps,
  call_release-Keeps, drain-Keeps, path_for_handle-Keeps,
}
use fabric_fs.Fuse.Adapter.Handles.{
  read, write, and_forget, release, flush, fsync, fsyncdir, getlk, FuseSetlk, setlk, flock,
  copy_paths, copy_file_range, max_reply_write_bytes, as_u32, copy_file_range_for_reply_write,
  fallocate, lseek,
}

module _ {C : Type 0} (a : FuseAdapter C) where
  and_forget-Keeps :
      {A : Type 0} (inode handle : ℕ) (m : Adapt C A) → Keeps m → Keeps (and_forget inode handle m)
  unfolding forget_handle_path
  and_forget-Keeps inode handle m k = record { keeps = λ s c. k.keeps s c }

  pub read-Keeps :
      (inode : ℕ) (handle : ℕ) (offset : ℕ) (size : ℕ) → Keeps (read a inode handle offset size)
  unfolding read
  read-Keeps inode handle offset size =
      asked-Keeps _ path_dto (λ path dto. call_handle_bound a _) read_value _
        (path_for_handle-Keeps a inode handle) (λ path dto. call_handle_bound-Keeps a _)
        (λ path value. lift-Keeps _)

  pub write-Keeps :
      (inode : ℕ) (handle : ℕ) (offset : ℕ) (content : List ℕ)
      → Keeps (write a inode handle offset content)
  unfolding write
  write-Keeps inode handle offset content =
      asked-Keeps _ path_dto (λ path dto. call_handle_bound a _) write_value _
        (path_for_handle-Keeps a inode handle) (λ path dto. call_handle_bound-Keeps a _)
        (λ path value. lift-Keeps _)

  pub release-Keeps : (inode handle flags : ℕ) → Keeps (release a inode handle flags)
  unfolding release
  release-Keeps inode handle flags =
      bind-Keeps (read_kernel-Keeps (λ k. Kernel.path_for_handle_bound_call k inode handle))
        (λ path. bind-Keeps (lift-Keeps (path_dto path)) (λ dto.
          bind-Keeps (and_forget-Keeps inode handle _ (call_release-Keeps a _)) (λ r.
            bind-Keeps (lift-Keeps (take_payload r)) (λ payload.
              bind-Keeps (lift-Keeps (release_value payload)) (λ value. lift-Keeps _)))))

  pub flush-Keeps :
      (inode : ℕ) (handle : ℕ) (lock_owner : ℕ) → Keeps (flush a inode handle lock_owner)
  unfolding flush
  flush-Keeps inode handle lock_owner =
      asked-Keeps _ path_dto (λ path dto. call_handle_bound a _) flush_value _
        (path_for_handle-Keeps a inode handle) (λ path dto. call_handle_bound-Keeps a _)
        (λ path value. lift-Keeps _)

  pub fsync-Keeps :
      (inode : ℕ) (handle : ℕ) (datasync : Bool) → Keeps (fsync a inode handle datasync)
  unfolding fsync
  fsync-Keeps inode handle datasync =
      asked-Keeps _ path_dto (λ path dto. call_handle_bound a _) fsync_value _
        (path_for_handle-Keeps a inode handle) (λ path dto. call_handle_bound-Keeps a _)
        (λ path value. lift-Keeps _)

  pub fsyncdir-Keeps :
      (inode : ℕ) (handle : ℕ) (datasync : Bool) → Keeps (fsyncdir a inode handle datasync)
  unfolding fsyncdir
  fsyncdir-Keeps inode handle datasync =
      asked-Keeps _ path_dto (λ path dto. call_handle_bound a _) fsyncdir_value _
        (path_for_handle-Keeps a inode handle) (λ path dto. call_handle_bound-Keeps a _)
        (λ path value. lift-Keeps _)

  pub getlk-Keeps :
      (inode : ℕ) (handle : ℕ) (owner : ℕ) (start : ℕ) (end : ℕ) (typ : ℕ) (pid : ℕ)
      → Keeps (getlk a inode handle owner start end typ pid)
  unfolding getlk
  getlk-Keeps inode handle owner start end typ pid =
      asked-Keeps _ path_dto (λ path dto. call_handle_bound a _) getlk_value _
        (path_for_handle-Keeps a inode handle) (λ path dto. call_handle_bound-Keeps a _)
        (λ path value. lift-Keeps _)

  pub setlk-Keeps : (inode : ℕ) (lock : FuseSetlk) → Keeps (setlk a inode lock)
  unfolding setlk
  setlk-Keeps inode lock =
      asked-Keeps _ path_dto (λ path dto. call_handle_bound a _) setlk_value _
        (path_for_handle-Keeps a inode lock.handle) (λ path dto. call_handle_bound-Keeps a _)
        (λ path value. lift-Keeps _)

  pub flock-Keeps :
      (inode : ℕ) (handle : ℕ) (owner : ℕ) (operation : ℕ)
      → Keeps (flock a inode handle owner operation)
  unfolding flock
  flock-Keeps inode handle owner operation =
      asked-Keeps _ path_dto (λ path dto. call_handle_bound a _) flock_value _
        (path_for_handle-Keeps a inode handle) (λ path dto. call_handle_bound-Keeps a _)
        (λ path value. lift-Keeps _)

  copy_paths-Keeps :
      (input_inode input_handle : ℕ) (input_offset : ℤ) (output_inode output_handle : ℕ)
      (output_offset : ℤ) (length flags : ℕ)
      → Keeps (
          copy_paths a input_inode input_handle input_offset output_inode output_handle
            output_offset length flags)
  unfolding copy_paths
  copy_paths-Keeps input_inode input_handle input_offset output_inode output_handle output_offset
        length flags =
      bind-Keeps (drain-Keeps a) (λ u.
        bind-Keeps
          (read_kernel-Keeps (λ k.
            Kernel.copy_file_range_paths k input_inode input_handle output_inode output_handle))
          (λ p. bind-Keeps (lift-Keeps (path_dto p.0)) (λ input.
            bind-Keeps (lift-Keeps (path_dto p.1)) (λ output.
              bind-Keeps (call_handle_bound-Keeps a _) (λ r.
                bind-Keeps (lift-Keeps (take_payload r)) (λ payload.
                  bind-Keeps (lift-Keeps (copy_file_range_value payload))
                    (λ value. lift-Keeps _)))))))

  pub copy_file_range-Keeps :
      (input_inode input_handle : ℕ) (input_offset : ℤ) (output_inode output_handle : ℕ)
      (output_offset : ℤ) (length flags : ℕ)
      → Keeps (
          copy_file_range a input_inode input_handle input_offset output_inode output_handle
            output_offset length flags)
  unfolding copy_file_range
  copy_file_range-Keeps input_inode input_handle input_offset output_inode output_handle
        output_offset length flags =
      by_flags (not (flags == 0))
    where
      by_flags :
          (b : Bool)
          → Keeps (
              if b
              then fail (response not_supported "copy_file_range flags are not supported")
              else copy_paths a input_inode input_handle input_offset output_inode output_handle
                  output_offset length flags)
      by_flags true =
          lift-Keeps (err (response not_supported "copy_file_range flags are not supported"))
      by_flags false =
          copy_paths-Keeps input_inode input_handle input_offset output_inode output_handle
            output_offset length flags

  pub copy_file_range_for_reply_write-Keeps :
      (input_inode input_handle : ℕ) (input_offset : ℤ) (output_inode output_handle : ℕ)
      (output_offset : ℤ) (length flags : ℕ)
      → Keeps (
          copy_file_range_for_reply_write a input_inode input_handle input_offset output_inode
            output_handle output_offset length flags)
  unfolding copy_file_range_for_reply_write
  copy_file_range_for_reply_write-Keeps input_inode input_handle input_offset output_inode
        output_handle output_offset length flags =
      bind-Keeps
        (copy_file_range-Keeps input_inode input_handle input_offset output_inode output_handle
          output_offset (min length max_reply_write_bytes) flags)
        (λ copied. lift-Keeps (as_u32 copied))

  pub fallocate-Keeps :
      (inode : ℕ) (handle : ℕ) (offset : ℤ) (length : ℤ) (mode : ℤ)
      → Keeps (fallocate a inode handle offset length mode)
  unfolding fallocate
  fallocate-Keeps inode handle offset length mode =
      asked-Keeps _ path_dto (λ path dto. call_handle_bound a _) fallocate_value _
        (path_for_handle-Keeps a inode handle) (λ path dto. call_handle_bound-Keeps a _)
        (λ path value. lift-Keeps _)

  pub lseek-Keeps :
      (inode : ℕ) (handle : ℕ) (offset : ℤ) (whence : ℕ)
      → Keeps (lseek a inode handle offset whence)
  unfolding lseek
  lseek-Keeps inode handle offset whence =
      asked-Keeps _ path_dto (λ path dto. call_handle_bound a _) lseek_value _
        (path_for_handle-Keeps a inode handle) (λ path dto. call_handle_bound-Keeps a _)
        (λ path value. lift-Keeps _)
