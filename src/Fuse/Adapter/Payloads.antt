-- ===== src/Fuse/Adapter/Payloads.antt =====
-- fs-fuse/src/lib.rs: the match of a response's payload on the operation that was called. Another
-- payload is an error.
use fabric_fs.Prelude.{Result, ok, err}
use fabric_fs.Protocol.Operation.{Operation}
use fabric_fs.Protocol.Messages.Responses.{
  LookupResponse, GetattrResponse, ReaddirResponse, OpenResponse, ReadResponse, WriteResponse,
  CreateResponse, EmptyResponse, StatfsResponse, GetxattrResponse, ListxattrResponse,
  ReadlinkResponse, SymlinkResponse, HardlinkResponse, SetattrResponse, GetlkResponse,
  CopyFileRangeResponse, LseekResponse,
}
use fabric_fs.Protocol.ResponsePayload.{ResponsePayload}
use fabric_fs.Fuse.Cache.{FuseError, unexpected_payload}

abbrev pub lookup_value : ResponsePayload → Result FuseError LookupResponse
lookup_value (ResponsePayload.lookup value) = ok value
lookup_value _ = err (unexpected_payload Operation.lookup)

abbrev pub getattr_value : ResponsePayload → Result FuseError GetattrResponse
getattr_value (ResponsePayload.getattr value) = ok value
getattr_value _ = err (unexpected_payload Operation.getattr)

abbrev pub readdir_value : ResponsePayload → Result FuseError ReaddirResponse
readdir_value (ResponsePayload.readdir value) = ok value
readdir_value _ = err (unexpected_payload Operation.readdir)

abbrev pub open_value : ResponsePayload → Result FuseError OpenResponse
open_value (ResponsePayload.«open» value) = ok value
open_value _ = err (unexpected_payload Operation.«open»)

abbrev pub read_value : ResponsePayload → Result FuseError ReadResponse
read_value (ResponsePayload.read value) = ok value
read_value _ = err (unexpected_payload Operation.read)

abbrev pub write_value : ResponsePayload → Result FuseError WriteResponse
write_value (ResponsePayload.write value) = ok value
write_value _ = err (unexpected_payload Operation.write)

abbrev pub create_value : ResponsePayload → Result FuseError CreateResponse
create_value (ResponsePayload.create value) = ok value
create_value _ = err (unexpected_payload Operation.create)

abbrev pub rename_value : ResponsePayload → Result FuseError EmptyResponse
rename_value (ResponsePayload.rename value) = ok value
rename_value _ = err (unexpected_payload Operation.rename)

abbrev pub unlink_value : ResponsePayload → Result FuseError EmptyResponse
unlink_value (ResponsePayload.unlink value) = ok value
unlink_value _ = err (unexpected_payload Operation.unlink)

abbrev pub mkdir_value : ResponsePayload → Result FuseError LookupResponse
mkdir_value (ResponsePayload.mkdir value) = ok value
mkdir_value _ = err (unexpected_payload Operation.mkdir)

abbrev pub rmdir_value : ResponsePayload → Result FuseError EmptyResponse
rmdir_value (ResponsePayload.rmdir value) = ok value
rmdir_value _ = err (unexpected_payload Operation.rmdir)

abbrev pub statfs_value : ResponsePayload → Result FuseError StatfsResponse
statfs_value (ResponsePayload.statfs value) = ok value
statfs_value _ = err (unexpected_payload Operation.statfs)

abbrev pub getxattr_value : ResponsePayload → Result FuseError GetxattrResponse
getxattr_value (ResponsePayload.getxattr value) = ok value
getxattr_value _ = err (unexpected_payload Operation.getxattr)

abbrev pub setxattr_value : ResponsePayload → Result FuseError EmptyResponse
setxattr_value (ResponsePayload.setxattr value) = ok value
setxattr_value _ = err (unexpected_payload Operation.setxattr)

abbrev pub listxattr_value : ResponsePayload → Result FuseError ListxattrResponse
listxattr_value (ResponsePayload.listxattr value) = ok value
listxattr_value _ = err (unexpected_payload Operation.listxattr)

abbrev pub removexattr_value : ResponsePayload → Result FuseError EmptyResponse
removexattr_value (ResponsePayload.removexattr value) = ok value
removexattr_value _ = err (unexpected_payload Operation.removexattr)

abbrev pub release_value : ResponsePayload → Result FuseError EmptyResponse
release_value (ResponsePayload.release value) = ok value
release_value _ = err (unexpected_payload Operation.release)

abbrev pub readlink_value : ResponsePayload → Result FuseError ReadlinkResponse
readlink_value (ResponsePayload.readlink value) = ok value
readlink_value _ = err (unexpected_payload Operation.readlink)

abbrev pub symlink_value : ResponsePayload → Result FuseError SymlinkResponse
symlink_value (ResponsePayload.symlink value) = ok value
symlink_value _ = err (unexpected_payload Operation.symlink)

abbrev pub hardlink_value : ResponsePayload → Result FuseError HardlinkResponse
hardlink_value (ResponsePayload.hardlink value) = ok value
hardlink_value _ = err (unexpected_payload Operation.hardlink)

abbrev pub setattr_value : ResponsePayload → Result FuseError SetattrResponse
setattr_value (ResponsePayload.setattr value) = ok value
setattr_value _ = err (unexpected_payload Operation.setattr)

abbrev pub flush_value : ResponsePayload → Result FuseError EmptyResponse
flush_value (ResponsePayload.flush value) = ok value
flush_value _ = err (unexpected_payload Operation.flush)

abbrev pub fsync_value : ResponsePayload → Result FuseError EmptyResponse
fsync_value (ResponsePayload.fsync value) = ok value
fsync_value _ = err (unexpected_payload Operation.fsync)

abbrev pub fsyncdir_value : ResponsePayload → Result FuseError EmptyResponse
fsyncdir_value (ResponsePayload.fsyncdir value) = ok value
fsyncdir_value _ = err (unexpected_payload Operation.fsyncdir)

abbrev pub getlk_value : ResponsePayload → Result FuseError GetlkResponse
getlk_value (ResponsePayload.getlk value) = ok value
getlk_value _ = err (unexpected_payload Operation.getlk)

abbrev pub setlk_value : ResponsePayload → Result FuseError EmptyResponse
setlk_value (ResponsePayload.setlk value) = ok value
setlk_value _ = err (unexpected_payload Operation.setlk)

abbrev pub flock_value : ResponsePayload → Result FuseError EmptyResponse
flock_value (ResponsePayload.flock value) = ok value
flock_value _ = err (unexpected_payload Operation.flock)

abbrev pub copy_file_range_value : ResponsePayload → Result FuseError CopyFileRangeResponse
copy_file_range_value (ResponsePayload.copy_file_range value) = ok value
copy_file_range_value _ = err (unexpected_payload Operation.copy_file_range)

abbrev pub fallocate_value : ResponsePayload → Result FuseError EmptyResponse
fallocate_value (ResponsePayload.fallocate value) = ok value
fallocate_value _ = err (unexpected_payload Operation.fallocate)

abbrev pub lseek_value : ResponsePayload → Result FuseError LseekResponse
lseek_value (ResponsePayload.lseek value) = ok value
lseek_value _ = err (unexpected_payload Operation.lseek)
