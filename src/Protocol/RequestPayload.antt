-- ===== src/Protocol/RequestPayload.antt =====
-- fs-protocol/src/payload.rs, `RequestPayload`: the requests, the paths that they name, and when they
-- are well formed.
use fabric_fs.Prelude.{ℕ, List, Option, none, some, Result, ◌>>◌, ◌>>=◌, true, false}
use fabric_fs.Protocol.Error.{ProtocolError}
use fabric_fs.Protocol.Operation.{Operation}
use fabric_fs.Protocol.OperationSpec.Types.{PathRole, target, source}
use fabric_fs.Protocol.Path.{
  validate_rename_paths, validate_path_field, validate_non_root_path_field, required_path_value,
}
use fabric_fs.Protocol.Messages.{PathDto}
use fabric_fs.Protocol.Messages.Requests.{
  LookupRequest, GetattrRequest, ReaddirRequest, OpenRequest, ReadRequest, WriteRequest,
  CreateRequest, RenameRequest, UnlinkRequest, MkdirRequest, RmdirRequest, StatfsRequest,
  GetxattrRequest, SetxattrRequest, ListxattrRequest, RemovexattrRequest, ReleaseRequest,
  ReadlinkRequest, SymlinkRequest, HardlinkRequest, SetattrRequest, FlushRequest, FsyncRequest,
  FsyncdirRequest, GetlkRequest, SetlkRequest, FlockRequest, CopyFileRangeRequest, FallocateRequest,
  LseekRequest,
}
use fabric_fs.Protocol.OperationSpec.Table.{spec_for, primary_path_role}
use fabric_fs.Protocol.Validation.{
  validate_xattr_name, validate_symlink_target, validate_open_request, validate_hardlink_request,
  validate_setattr_request, validate_lock_range, validate_lock_type, validate_flock_operation,
  validate_copy_file_range_request, validate_fallocate_request, validate_lseek_request,
}

pub data RequestPayload : Type 0 where
  lookup : LookupRequest → RequestPayload
  getattr : GetattrRequest → RequestPayload
  readdir : ReaddirRequest → RequestPayload
  «open» : OpenRequest → RequestPayload
  read : ReadRequest → RequestPayload
  write : WriteRequest → RequestPayload
  create : CreateRequest → RequestPayload
  rename : RenameRequest → RequestPayload
  unlink : UnlinkRequest → RequestPayload
  mkdir : MkdirRequest → RequestPayload
  rmdir : RmdirRequest → RequestPayload
  statfs : StatfsRequest → RequestPayload
  getxattr : GetxattrRequest → RequestPayload
  setxattr : SetxattrRequest → RequestPayload
  listxattr : ListxattrRequest → RequestPayload
  removexattr : RemovexattrRequest → RequestPayload
  release : ReleaseRequest → RequestPayload
  readlink : ReadlinkRequest → RequestPayload
  symlink : SymlinkRequest → RequestPayload
  hardlink : HardlinkRequest → RequestPayload
  setattr : SetattrRequest → RequestPayload
  flush : FlushRequest → RequestPayload
  fsync : FsyncRequest → RequestPayload
  fsyncdir : FsyncdirRequest → RequestPayload
  getlk : GetlkRequest → RequestPayload
  setlk : SetlkRequest → RequestPayload
  flock : FlockRequest → RequestPayload
  copy_file_range : CopyFileRangeRequest → RequestPayload
  fallocate : FallocateRequest → RequestPayload
  lseek : LseekRequest → RequestPayload

unfoldable pub operation : RequestPayload → Operation
operation (lookup v) = Operation.lookup
operation (getattr v) = Operation.getattr
operation (readdir v) = Operation.readdir
operation («open» v) = Operation.«open»
operation (read v) = Operation.read
operation (write v) = Operation.write
operation (create v) = Operation.create
operation (rename v) = Operation.rename
operation (unlink v) = Operation.unlink
operation (mkdir v) = Operation.mkdir
operation (rmdir v) = Operation.rmdir
operation (statfs v) = Operation.statfs
operation (getxattr v) = Operation.getxattr
operation (setxattr v) = Operation.setxattr
operation (listxattr v) = Operation.listxattr
operation (removexattr v) = Operation.removexattr
operation (release v) = Operation.release
operation (readlink v) = Operation.readlink
operation (symlink v) = Operation.symlink
operation (hardlink v) = Operation.hardlink
operation (setattr v) = Operation.setattr
operation (flush v) = Operation.flush
operation (fsync v) = Operation.fsync
operation (fsyncdir v) = Operation.fsyncdir
operation (getlk v) = Operation.getlk
operation (setlk v) = Operation.setlk
operation (flock v) = Operation.flock
operation (copy_file_range v) = Operation.copy_file_range
operation (fallocate v) = Operation.fallocate
operation (lseek v) = Operation.lseek

unfoldable pub path_dto_for_role : RequestPayload → PathRole → Option PathDto
path_dto_for_role (lookup v) target = v.path
path_dto_for_role (lookup v) source = none
path_dto_for_role (getattr v) target = v.path
path_dto_for_role (getattr v) source = none
path_dto_for_role (readdir v) target = v.path
path_dto_for_role (readdir v) source = none
path_dto_for_role («open» v) target = v.path
path_dto_for_role («open» v) source = none
path_dto_for_role (read v) target = v.path
path_dto_for_role (read v) source = none
path_dto_for_role (write v) target = v.path
path_dto_for_role (write v) source = none
path_dto_for_role (create v) target = v.path
path_dto_for_role (create v) source = none
path_dto_for_role (rename v) source = v.old_path
path_dto_for_role (rename v) target = v.new_path
path_dto_for_role (unlink v) target = v.path
path_dto_for_role (unlink v) source = none
path_dto_for_role (mkdir v) target = v.path
path_dto_for_role (mkdir v) source = none
path_dto_for_role (rmdir v) target = v.path
path_dto_for_role (rmdir v) source = none
path_dto_for_role (statfs v) target = v.path
path_dto_for_role (statfs v) source = none
path_dto_for_role (getxattr v) target = v.path
path_dto_for_role (getxattr v) source = none
path_dto_for_role (setxattr v) target = v.path
path_dto_for_role (setxattr v) source = none
path_dto_for_role (listxattr v) target = v.path
path_dto_for_role (listxattr v) source = none
path_dto_for_role (removexattr v) target = v.path
path_dto_for_role (removexattr v) source = none
path_dto_for_role (release v) target = v.path
path_dto_for_role (release v) source = none
path_dto_for_role (readlink v) target = v.path
path_dto_for_role (readlink v) source = none
path_dto_for_role (symlink v) target = v.path
path_dto_for_role (symlink v) source = none
path_dto_for_role (hardlink v) source = v.existing_path
path_dto_for_role (hardlink v) target = v.new_path
path_dto_for_role (setattr v) target = v.path
path_dto_for_role (setattr v) source = none
path_dto_for_role (flush v) target = v.path
path_dto_for_role (flush v) source = none
path_dto_for_role (fsync v) target = v.path
path_dto_for_role (fsync v) source = none
path_dto_for_role (fsyncdir v) target = v.path
path_dto_for_role (fsyncdir v) source = none
path_dto_for_role (getlk v) target = v.path
path_dto_for_role (getlk v) source = none
path_dto_for_role (setlk v) target = v.path
path_dto_for_role (setlk v) source = none
path_dto_for_role (flock v) target = v.path
path_dto_for_role (flock v) source = none
path_dto_for_role (copy_file_range v) source = v.input_path
path_dto_for_role (copy_file_range v) target = v.output_path
path_dto_for_role (fallocate v) target = v.path
path_dto_for_role (fallocate v) source = none
path_dto_for_role (lseek v) target = v.path
path_dto_for_role (lseek v) source = none

unfoldable pub path_for_role : RequestPayload → PathRole → Option (List ℕ)
path_for_role payload role = path_dto_for_role payload role

unfoldable pub primary_path : RequestPayload → Option (List ℕ)
primary_path payload = elim (spec_for (operation payload)) [
  | none ↦ none
  | some s ↦ elim (primary_path_role s) [ none ↦ none | some role ↦ path_for_role payload role ]
]

unfoldable pub validate : RequestPayload → Result ProtocolError (Unit {0})
validate (lookup v) = validate_path_field v.path
validate (getattr v) = validate_path_field v.path
validate (readdir v) = validate_path_field v.path
validate («open» v) = validate_open_request v
validate (read v) = validate_path_field v.path
validate (write v) = validate_path_field v.path
validate (create v) = validate_non_root_path_field v.path
validate (rename v) = do
  old_path ← required_path_value v.old_path
  new_path ← required_path_value v.new_path
  validate_rename_paths old_path new_path
validate (unlink v) = validate_non_root_path_field v.path
validate (mkdir v) = validate_non_root_path_field v.path
validate (rmdir v) = validate_non_root_path_field v.path
validate (statfs v) = validate_path_field v.path
validate (getxattr v) = validate_path_field v.path >> validate_xattr_name v.name
validate (setxattr v) = validate_path_field v.path >> validate_xattr_name v.name
validate (listxattr v) = validate_path_field v.path
validate (removexattr v) = validate_path_field v.path >> validate_xattr_name v.name
validate (release v) = validate_path_field v.path
validate (readlink v) = validate_path_field v.path
validate (symlink v) = validate_non_root_path_field v.path >> validate_symlink_target v.target
validate (hardlink v) = validate_hardlink_request v
validate (setattr v) = validate_setattr_request v
validate (flush v) = validate_path_field v.path
validate (fsync v) = validate_path_field v.path
validate (fsyncdir v) = validate_path_field v.path
validate (getlk v) =
    validate_path_field v.path
    >> validate_lock_range v.start v.end
    >> validate_lock_type v.typ false
validate (setlk v) =
    validate_path_field v.path >> validate_lock_range v.start v.end >> validate_lock_type v.typ true
validate (flock v) = validate_path_field v.path >> validate_flock_operation v.operation
validate (copy_file_range v) = validate_copy_file_range_request v
validate (fallocate v) = validate_fallocate_request v
validate (lseek v) = validate_lseek_request v
