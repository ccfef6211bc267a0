-- ===== src/Protocol/ResponsePayload.antt =====
-- fs-protocol/src/payload.rs, `ResponsePayload`: the responses, when they are well formed, and when
-- they keep to what their request asked for.
use fabric_fs.Prelude.{
  ℕ, String, Bool, not, ◌&&◌, Option, none, some, Result, ok, err, ◌>>◌, if◌then◌else◌, ltb, ◌==◌,
  length,
}
use fabric_fs.Prelude.Int.{is_negative}
use fabric_fs.Protocol.Error.{
  ProtocolError, payload_mismatch, invalid_envelope, invalid_response_state,
}
use fabric_fs.Protocol.Operation.{Operation, same_operation}
use fabric_fs.Protocol.OperationSpec.Types.{
  ResponseLimit, requested_directory_entries, requested_read_bytes, request_write_bytes,
  requested_xattr_bytes, requested_listxattr_bytes, requested_copy_length,
}
use fabric_fs.Protocol.OperationSpec.Table.{spec_for}
use fabric_fs.Protocol.Messages.{FileAttr}
use fabric_fs.Protocol.Messages.Responses.{
  LookupResponse, GetattrResponse, ReaddirResponse, OpenResponse, ReadResponse, WriteResponse,
  CreateResponse, EmptyResponse, StatfsResponse, GetxattrResponse, ListxattrResponse,
  ReadlinkResponse, SymlinkResponse, HardlinkResponse, SetattrResponse, GetlkResponse,
  CopyFileRangeResponse, LseekResponse,
}
use fabric_fs.Protocol.RequestPayload
use fabric_fs.Protocol.RequestPayload.{RequestPayload}
use fabric_fs.Protocol.Validation.{
  FileKind, validate_each, validate_attr_field, validate_attr_field_kind,
  validate_non_directory_attr, validate_directory_entry, validate_xattr_name,
  validate_symlink_target, validate_file_lock, listxattr_response_size,
}

pub data ResponsePayload : Type 0 where
  lookup : LookupResponse → ResponsePayload
  getattr : GetattrResponse → ResponsePayload
  readdir : ReaddirResponse → ResponsePayload
  «open» : OpenResponse → ResponsePayload
  read : ReadResponse → ResponsePayload
  write : WriteResponse → ResponsePayload
  create : CreateResponse → ResponsePayload
  rename : EmptyResponse → ResponsePayload
  unlink : EmptyResponse → ResponsePayload
  mkdir : LookupResponse → ResponsePayload
  rmdir : EmptyResponse → ResponsePayload
  statfs : StatfsResponse → ResponsePayload
  getxattr : GetxattrResponse → ResponsePayload
  setxattr : EmptyResponse → ResponsePayload
  listxattr : ListxattrResponse → ResponsePayload
  removexattr : EmptyResponse → ResponsePayload
  release : EmptyResponse → ResponsePayload
  readlink : ReadlinkResponse → ResponsePayload
  symlink : SymlinkResponse → ResponsePayload
  hardlink : HardlinkResponse → ResponsePayload
  setattr : SetattrResponse → ResponsePayload
  flush : EmptyResponse → ResponsePayload
  fsync : EmptyResponse → ResponsePayload
  fsyncdir : EmptyResponse → ResponsePayload
  getlk : GetlkResponse → ResponsePayload
  setlk : EmptyResponse → ResponsePayload
  flock : EmptyResponse → ResponsePayload
  copy_file_range : CopyFileRangeResponse → ResponsePayload
  fallocate : EmptyResponse → ResponsePayload
  lseek : LseekResponse → ResponsePayload

unfoldable pub operation : ResponsePayload → Operation
operation (lookup v) = Operation.lookup
operation (getattr v) = Operation.getattr
operation (readdir v) = Operation.readdir
operation («open» v) = Operation.«open»
operation (read v) = Operation.read
operation (write v) = Operation.write
operation (create v) = Operation.create
operation (rename v) = Operation.rename
operation (unlink v) = Operation.unlink
operation (mkdir v) = Operation.mkdir
operation (rmdir v) = Operation.rmdir
operation (statfs v) = Operation.statfs
operation (getxattr v) = Operation.getxattr
operation (setxattr v) = Operation.setxattr
operation (listxattr v) = Operation.listxattr
operation (removexattr v) = Operation.removexattr
operation (release v) = Operation.release
operation (readlink v) = Operation.readlink
operation (symlink v) = Operation.symlink
operation (hardlink v) = Operation.hardlink
operation (setattr v) = Operation.setattr
operation (flush v) = Operation.flush
operation (fsync v) = Operation.fsync
operation (fsyncdir v) = Operation.fsyncdir
operation (getlk v) = Operation.getlk
operation (setlk v) = Operation.setlk
operation (flock v) = Operation.flock
operation (copy_file_range v) = Operation.copy_file_range
operation (fallocate v) = Operation.fallocate
operation (lseek v) = Operation.lseek

abbrev pub attr_inode : Option FileAttr → Option ℕ
attr_inode none = none
attr_inode (some attr) = some attr.inode

unfoldable pub created_inode : ResponsePayload → Option ℕ
created_inode (create v) = attr_inode v.attr
created_inode (mkdir v) = attr_inode v.attr
created_inode (symlink v) = attr_inode v.attr
created_inode (hardlink v) = attr_inode v.attr
created_inode _ = none

unfoldable pub opened_handle : ResponsePayload → Option ℕ
opened_handle («open» v) = some v.handle
opened_handle (create v) = some v.handle
opened_handle _ = none

unfoldable pub validate : ResponsePayload → Result ProtocolError (Unit {0})
validate (lookup v) = validate_attr_field v.attr
validate (getattr v) = validate_attr_field v.attr
validate (readdir v) = validate_each validate_directory_entry v.entries
validate («open» v) = ok tt
validate (read v) = ok tt
validate (write v) = ok tt
validate (create v) = validate_attr_field_kind v.attr (some FileKind.file)
validate (rename v) = ok tt
validate (unlink v) = ok tt
validate (mkdir v) = validate_attr_field_kind v.attr (some FileKind.directory)
validate (rmdir v) = ok tt
validate (statfs v) = elim v.stat [
  | some _ ↦ ok tt
  | none ↦ err (invalid_envelope "missing statfs payload")
]
validate (getxattr v) = ok tt
validate (setxattr v) = ok tt
validate (listxattr v) = validate_each validate_xattr_name v.names
validate (removexattr v) = ok tt
validate (release v) = ok tt
validate (readlink v) = validate_symlink_target v.target
validate (symlink v) = validate_attr_field_kind v.attr (some FileKind.symlink)
validate (hardlink v) = validate_non_directory_attr v.attr
validate (setattr v) = validate_attr_field v.attr
validate (flush v) = ok tt
validate (fsync v) = ok tt
validate (fsyncdir v) = ok tt
validate (getlk v) = elim v.lock [ some lock ↦ validate_file_lock lock | none ↦ ok tt ]
validate (setlk v) = ok tt
validate (flock v) = ok tt
validate (copy_file_range v) = ok tt
validate (fallocate v) = ok tt
validate (lseek v) =
    if is_negative v.offset
    then err (invalid_response_state "lseek response offset must be non-negative")
    else ok tt

abbrev too_large : Bool → String → Result ProtocolError (Unit {0})
too_large exceeded text = if exceeded then err (invalid_response_state text) else ok tt

-- The match on the response limit of the operation.
unfoldable pub check_limit :
    ResponseLimit → RequestPayload → ResponsePayload → Result ProtocolError (Unit {0})
check_limit requested_directory_entries (RequestPayload.readdir request) (readdir response) =
    too_large (ltb request.max_entries (length response.entries))
      "readdir response exceeded requested max_entries"
check_limit requested_read_bytes (RequestPayload.read request) (read response) =
    too_large (ltb request.size (length response.content)) "read response exceeded requested size"
check_limit request_write_bytes (RequestPayload.write request) (write response) =
    too_large (ltb (length request.content) response.bytes_written)
      "write response exceeded request data length"
check_limit requested_xattr_bytes (RequestPayload.getxattr request) (getxattr response) =
    too_large (not (request.size == 0) && ltb request.size (length response.value))
      "getxattr response exceeded requested size"
check_limit requested_listxattr_bytes (RequestPayload.listxattr request) (listxattr response) =
    too_large (not (request.size == 0) && ltb request.size (listxattr_response_size response.names))
      "listxattr response exceeded requested size"
check_limit requested_copy_length (RequestPayload.copy_file_range request)
      (copy_file_range response) =
    too_large (ltb request.length response.bytes_copied)
      "copy_file_range response exceeded requested length"
check_limit _ _ _ = ok tt

unfoldable pub validate_for_request :
    ResponsePayload → RequestPayload → Result ProtocolError (Unit {0})
validate_for_request payload request =
    if not (same_operation (operation payload) (RequestPayload.operation request))
    then err (payload_mismatch (RequestPayload.operation request) (operation payload))
    else validate payload >> (elim (spec_for (RequestPayload.operation request)) [
      | none ↦ ok tt
      | some s ↦ check_limit s.response_limit request payload
    ])
