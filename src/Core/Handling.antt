-- ===== src/Core/Handling.antt =====
-- fs-core/src/lib.rs, `check_limits`, `call_handler` and `validate_before_handler`: what the dispatcher
-- checks before it calls the service, and the call.
use Prim.Native.String.{◌++◌ as text_append}
use fabric_fs.Prelude.{
  ℕ, String, not, ◌&&◌, leb, ◌==◌, ◌===◌, string_eq, length, Result, ok, err, ensure, ◌>>◌,
}
use fabric_fs.Protocol.Error.{ProtocolError}
use fabric_fs.Protocol.Errno.{invalid_argument, message_too_large, no_buffer_space, timed_out}
use fabric_fs.Protocol.RequestPayload.{RequestPayload}
use fabric_fs.Protocol.ResponsePayload.{ResponsePayload}
use fabric_fs.Protocol.RequestEnvelope
use fabric_fs.Protocol.RequestEnvelope.{RequestEnvelope}
use fabric_fs.Core.Service.{FsError, FsResult, fs_error, RpcMetadata, FileSystemService}

pub record ResourceLimits : Type 0 where
  pub max_envelope_bytes : ℕ
  pub max_read_bytes : ℕ
  pub max_write_bytes : ℕ
  pub max_directory_entries : ℕ
  pub max_xattr_bytes : ℕ
  pub max_symlink_target_bytes : ℕ

abbrev pub default_limits : ResourceLimits
default_limits = record {
  max_envelope_bytes = 4194304;
  max_read_bytes = 1048576;
  max_write_bytes = 1048576;
  max_directory_entries = 4096;
  max_xattr_bytes = 65536;
  max_symlink_target_bytes = 4096;
}

unfoldable pub check_payload : ResourceLimits → RequestPayload → FsResult (Unit {0})
check_payload limits (RequestPayload.read value) =
    ensure (leb value.size limits.max_read_bytes)
      (fs_error no_buffer_space "read size exceeds limit")
check_payload limits (RequestPayload.write value) =
    ensure (leb (length value.content) limits.max_write_bytes)
      (fs_error message_too_large "write size exceeds limit")
check_payload limits (RequestPayload.readdir value) =
    ensure (leb value.max_entries limits.max_directory_entries)
      (fs_error no_buffer_space "directory entry request exceeds limit")
check_payload limits (RequestPayload.getxattr value) =
    ensure (leb value.size limits.max_xattr_bytes)
      (fs_error no_buffer_space "xattr size exceeds limit")
check_payload limits (RequestPayload.listxattr value) =
    ensure (leb value.size limits.max_xattr_bytes)
      (fs_error no_buffer_space "xattr list size exceeds limit")
check_payload limits (RequestPayload.setxattr value) =
    ensure (leb (length value.value) limits.max_xattr_bytes)
      (fs_error message_too_large "xattr value exceeds limit")
check_payload limits (RequestPayload.symlink value) =
    ensure (leb (length value.target) limits.max_symlink_target_bytes)
      (fs_error message_too_large "symlink target exceeds limit")
check_payload limits _ = ok tt

unfoldable pub check_limits : ResourceLimits → RequestEnvelope → RpcMetadata → FsResult (Unit {0})
check_limits limits request metadata = do
  ensure (leb metadata.payload_len limits.max_envelope_bytes)
      (fs_error message_too_large "request envelope exceeds max bytes")
  check_payload limits request.payload

abbrev pub answer :
    {S R : Type 0} → (R → ResponsePayload) → S × FsResult R → S × FsResult ResponsePayload
answer wrap (s, ok response) = (s, ok (wrap response))
answer wrap (s, err e) = (s, err e)

unfoldable pub call_handler :
    {S : Type 0}
    → FileSystemService S
    → S
    → RequestPayload
    → RpcMetadata
    → S × FsResult ResponsePayload
call_handler service s (RequestPayload.lookup value) metadata =
    answer ResponsePayload.lookup (service.lookup s value metadata)
call_handler service s (RequestPayload.getattr value) metadata =
    answer ResponsePayload.getattr (service.getattr s value metadata)
call_handler service s (RequestPayload.readdir value) metadata =
    answer ResponsePayload.readdir (service.readdir s value metadata)
call_handler service s (RequestPayload.«open» value) metadata =
    answer ResponsePayload.«open» (service.«open» s value metadata)
call_handler service s (RequestPayload.read value) metadata =
    answer ResponsePayload.read (service.read s value metadata)
call_handler service s (RequestPayload.write value) metadata =
    answer ResponsePayload.write (service.write s value metadata)
call_handler service s (RequestPayload.create value) metadata =
    answer ResponsePayload.create (service.create s value metadata)
call_handler service s (RequestPayload.rename value) metadata =
    answer ResponsePayload.rename (service.rename s value metadata)
call_handler service s (RequestPayload.unlink value) metadata =
    answer ResponsePayload.unlink (service.unlink s value metadata)
call_handler service s (RequestPayload.mkdir value) metadata =
    answer ResponsePayload.mkdir (service.mkdir s value metadata)
call_handler service s (RequestPayload.rmdir value) metadata =
    answer ResponsePayload.rmdir (service.rmdir s value metadata)
call_handler service s (RequestPayload.statfs value) metadata =
    answer ResponsePayload.statfs (service.statfs s value metadata)
call_handler service s (RequestPayload.getxattr value) metadata =
    answer ResponsePayload.getxattr (service.getxattr s value metadata)
call_handler service s (RequestPayload.setxattr value) metadata =
    answer ResponsePayload.setxattr (service.setxattr s value metadata)
call_handler service s (RequestPayload.listxattr value) metadata =
    answer ResponsePayload.listxattr (service.listxattr s value metadata)
call_handler service s (RequestPayload.removexattr value) metadata =
    answer ResponsePayload.removexattr (service.removexattr s value metadata)
call_handler service s (RequestPayload.release value) metadata =
    answer ResponsePayload.release (service.release s value metadata)
call_handler service s (RequestPayload.readlink value) metadata =
    answer ResponsePayload.readlink (service.readlink s value metadata)
call_handler service s (RequestPayload.symlink value) metadata =
    answer ResponsePayload.symlink (service.symlink s value metadata)
call_handler service s (RequestPayload.hardlink value) metadata =
    answer ResponsePayload.hardlink (service.hardlink s value metadata)
call_handler service s (RequestPayload.setattr value) metadata =
    answer ResponsePayload.setattr (service.setattr s value metadata)
call_handler service s (RequestPayload.flush value) metadata =
    answer ResponsePayload.flush (service.flush s value metadata)
call_handler service s (RequestPayload.fsync value) metadata =
    answer ResponsePayload.fsync (service.fsync s value metadata)
call_handler service s (RequestPayload.fsyncdir value) metadata =
    answer ResponsePayload.fsyncdir (service.fsyncdir s value metadata)
call_handler service s (RequestPayload.getlk value) metadata =
    answer ResponsePayload.getlk (service.getlk s value metadata)
call_handler service s (RequestPayload.setlk value) metadata =
    answer ResponsePayload.setlk (service.setlk s value metadata)
call_handler service s (RequestPayload.flock value) metadata =
    answer ResponsePayload.flock (service.flock s value metadata)
call_handler service s (RequestPayload.copy_file_range value) metadata =
    answer ResponsePayload.copy_file_range (service.copy_file_range s value metadata)
call_handler service s (RequestPayload.fallocate value) metadata =
    answer ResponsePayload.fallocate (service.fallocate s value metadata)
call_handler service s (RequestPayload.lseek value) metadata =
    answer ResponsePayload.lseek (service.lseek s value metadata)

abbrev pub Authorizer : Type 0
Authorizer = RpcMetadata → RequestEnvelope → FsResult (Unit {0})

abbrev pub allow_all : Authorizer
allow_all metadata request = ok tt

unfoldable pub protocol_error_to_fs_error : (ProtocolError → String) → ProtocolError → FsError
protocol_error_to_fs_error display error =
    fs_error invalid_argument (text_append "invalid protocol request: " (display error))

abbrev pub map_err : {A E F : Type 0} → (E → F) → Result E A → Result F A
map_err f (ok a) = ok a
map_err f (err e) = err (f e)

-- The clock is read once, and only where the request has a deadline.
unfoldable pub validate_before_handler :
    (ProtocolError → String)
    → Authorizer
    → ResourceLimits
    → ℕ
    → RequestEnvelope
    → RpcMetadata
    → FsResult (Unit {0})
validate_before_handler display authorize limits now request metadata = do
  map_err (protocol_error_to_fs_error display) (RequestEnvelope.validate request)
  ensure (metadata.request_id === request.request_id)
      (fs_error invalid_argument "metadata request_id does not match envelope")
  ensure (metadata.namespace === request.namespace)
      (fs_error invalid_argument "metadata namespace does not match envelope")
  ensure (not (not (request.deadline_unix_nanos == 0) && leb request.deadline_unix_nanos now))
      (fs_error timed_out "request deadline expired before dispatch")
  check_limits limits request metadata
  authorize metadata request
