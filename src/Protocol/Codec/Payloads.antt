-- ===== src/Protocol/Codec/Payloads.antt =====
-- fs-protocol/src/payload.rs: the coding of the payloads.
pub mod Back
pub mod Read
use fabric_fs.Prelude.{Result, ok, err, ◌>>=◌, ◌>>◌}
use fabric_fs.Protocol.Error.{ProtocolError}
use fabric_fs.Protocol.Operation.{Operation}
use fabric_fs.Protocol.RequestPayload
use fabric_fs.Protocol.RequestPayload.{RequestPayload}
use fabric_fs.Protocol.ResponsePayload
use fabric_fs.Protocol.ResponsePayload.{ResponsePayload}
use fabric_fs.Protocol.Codec.{
  Prost, MessageShape, Message, encode_message, decode_message, lookup_request, getattr_request,
  readdir_request, open_request, read_request, write_request, create_request, rename_request,
  unlink_request, mkdir_request, rmdir_request, statfs_request, getxattr_request, setxattr_request,
  listxattr_request, removexattr_request, release_request, readlink_request, symlink_request,
  hardlink_request, setattr_request, flush_request, fsync_request, fsyncdir_request, getlk_request,
  setlk_request, flock_request, copy_file_range_request, fallocate_request, lseek_request,
  lookup_response, getattr_response, readdir_response, open_response, read_response, write_response,
  create_response, empty_response, statfs_response, getxattr_response, listxattr_response,
  readlink_response, symlink_response, hardlink_response, setattr_response, getlk_response,
  copy_file_range_response, lseek_response,
}

abbrev pub read_as : {M T : Type 0} → (M → T) → Result ProtocolError M → Result ProtocolError T
read_as wrap (ok m) = ok (wrap m)
read_as wrap (err e) = err e

unfoldable pub encode_request_payload :
    {P E : Type 0} → Prost P E → RequestPayload → Result ProtocolError P
encode_request_payload prost (RequestPayload.lookup value) =
    encode_message prost lookup_request value
encode_request_payload prost (RequestPayload.getattr value) =
    encode_message prost getattr_request value
encode_request_payload prost (RequestPayload.readdir value) =
    encode_message prost readdir_request value
encode_request_payload prost (RequestPayload.«open» value) = encode_message prost open_request value
encode_request_payload prost (RequestPayload.read value) = encode_message prost read_request value
encode_request_payload prost (RequestPayload.write value) = encode_message prost write_request value
encode_request_payload prost (RequestPayload.create value) =
    encode_message prost create_request value
encode_request_payload prost (RequestPayload.rename value) =
    encode_message prost rename_request value
encode_request_payload prost (RequestPayload.unlink value) =
    encode_message prost unlink_request value
encode_request_payload prost (RequestPayload.mkdir value) = encode_message prost mkdir_request value
encode_request_payload prost (RequestPayload.rmdir value) = encode_message prost rmdir_request value
encode_request_payload prost (RequestPayload.statfs value) =
    encode_message prost statfs_request value
encode_request_payload prost (RequestPayload.getxattr value) =
    encode_message prost getxattr_request value
encode_request_payload prost (RequestPayload.setxattr value) =
    encode_message prost setxattr_request value
encode_request_payload prost (RequestPayload.listxattr value) =
    encode_message prost listxattr_request value
encode_request_payload prost (RequestPayload.removexattr value) =
    encode_message prost removexattr_request value
encode_request_payload prost (RequestPayload.release value) =
    encode_message prost release_request value
encode_request_payload prost (RequestPayload.readlink value) =
    encode_message prost readlink_request value
encode_request_payload prost (RequestPayload.symlink value) =
    encode_message prost symlink_request value
encode_request_payload prost (RequestPayload.hardlink value) =
    encode_message prost hardlink_request value
encode_request_payload prost (RequestPayload.setattr value) =
    encode_message prost setattr_request value
encode_request_payload prost (RequestPayload.flush value) = encode_message prost flush_request value
encode_request_payload prost (RequestPayload.fsync value) = encode_message prost fsync_request value
encode_request_payload prost (RequestPayload.fsyncdir value) =
    encode_message prost fsyncdir_request value
encode_request_payload prost (RequestPayload.getlk value) = encode_message prost getlk_request value
encode_request_payload prost (RequestPayload.setlk value) = encode_message prost setlk_request value
encode_request_payload prost (RequestPayload.flock value) = encode_message prost flock_request value
encode_request_payload prost (RequestPayload.copy_file_range value) =
    encode_message prost copy_file_range_request value
encode_request_payload prost (RequestPayload.fallocate value) =
    encode_message prost fallocate_request value
encode_request_payload prost (RequestPayload.lseek value) = encode_message prost lseek_request value

unfoldable pub read_request_payload :
    {P E : Type 0} → Prost P E → Operation → P → Result ProtocolError RequestPayload
read_request_payload prost Operation.lookup bytes =
    read_as RequestPayload.lookup (decode_message prost lookup_request bytes)
read_request_payload prost Operation.getattr bytes =
    read_as RequestPayload.getattr (decode_message prost getattr_request bytes)
read_request_payload prost Operation.readdir bytes =
    read_as RequestPayload.readdir (decode_message prost readdir_request bytes)
read_request_payload prost Operation.«open» bytes =
    read_as RequestPayload.«open» (decode_message prost open_request bytes)
read_request_payload prost Operation.read bytes =
    read_as RequestPayload.read (decode_message prost read_request bytes)
read_request_payload prost Operation.write bytes =
    read_as RequestPayload.write (decode_message prost write_request bytes)
read_request_payload prost Operation.create bytes =
    read_as RequestPayload.create (decode_message prost create_request bytes)
read_request_payload prost Operation.rename bytes =
    read_as RequestPayload.rename (decode_message prost rename_request bytes)
read_request_payload prost Operation.unlink bytes =
    read_as RequestPayload.unlink (decode_message prost unlink_request bytes)
read_request_payload prost Operation.mkdir bytes =
    read_as RequestPayload.mkdir (decode_message prost mkdir_request bytes)
read_request_payload prost Operation.rmdir bytes =
    read_as RequestPayload.rmdir (decode_message prost rmdir_request bytes)
read_request_payload prost Operation.statfs bytes =
    read_as RequestPayload.statfs (decode_message prost statfs_request bytes)
read_request_payload prost Operation.getxattr bytes =
    read_as RequestPayload.getxattr (decode_message prost getxattr_request bytes)
read_request_payload prost Operation.setxattr bytes =
    read_as RequestPayload.setxattr (decode_message prost setxattr_request bytes)
read_request_payload prost Operation.listxattr bytes =
    read_as RequestPayload.listxattr (decode_message prost listxattr_request bytes)
read_request_payload prost Operation.removexattr bytes =
    read_as RequestPayload.removexattr (decode_message prost removexattr_request bytes)
read_request_payload prost Operation.release bytes =
    read_as RequestPayload.release (decode_message prost release_request bytes)
read_request_payload prost Operation.readlink bytes =
    read_as RequestPayload.readlink (decode_message prost readlink_request bytes)
read_request_payload prost Operation.symlink bytes =
    read_as RequestPayload.symlink (decode_message prost symlink_request bytes)
read_request_payload prost Operation.hardlink bytes =
    read_as RequestPayload.hardlink (decode_message prost hardlink_request bytes)
read_request_payload prost Operation.setattr bytes =
    read_as RequestPayload.setattr (decode_message prost setattr_request bytes)
read_request_payload prost Operation.flush bytes =
    read_as RequestPayload.flush (decode_message prost flush_request bytes)
read_request_payload prost Operation.fsync bytes =
    read_as RequestPayload.fsync (decode_message prost fsync_request bytes)
read_request_payload prost Operation.fsyncdir bytes =
    read_as RequestPayload.fsyncdir (decode_message prost fsyncdir_request bytes)
read_request_payload prost Operation.getlk bytes =
    read_as RequestPayload.getlk (decode_message prost getlk_request bytes)
read_request_payload prost Operation.setlk bytes =
    read_as RequestPayload.setlk (decode_message prost setlk_request bytes)
read_request_payload prost Operation.flock bytes =
    read_as RequestPayload.flock (decode_message prost flock_request bytes)
read_request_payload prost Operation.copy_file_range bytes =
    read_as RequestPayload.copy_file_range (decode_message prost copy_file_range_request bytes)
read_request_payload prost Operation.fallocate bytes =
    read_as RequestPayload.fallocate (decode_message prost fallocate_request bytes)
read_request_payload prost Operation.lseek bytes =
    read_as RequestPayload.lseek (decode_message prost lseek_request bytes)

unfoldable pub decode_request_payload :
    {P E : Type 0} → Prost P E → Operation → P → Result ProtocolError RequestPayload
decode_request_payload prost operation bytes = do
  payload ← read_request_payload prost operation bytes
  RequestPayload.validate payload
  ok payload

unfoldable pub encode_response_payload :
    {P E : Type 0} → Prost P E → ResponsePayload → Result ProtocolError P
encode_response_payload prost (ResponsePayload.lookup value) =
    encode_message prost lookup_response value
encode_response_payload prost (ResponsePayload.getattr value) =
    encode_message prost getattr_response value
encode_response_payload prost (ResponsePayload.readdir value) =
    encode_message prost readdir_response value
encode_response_payload prost (ResponsePayload.«open» value) =
    encode_message prost open_response value
encode_response_payload prost (ResponsePayload.read value) =
    encode_message prost read_response value
encode_response_payload prost (ResponsePayload.write value) =
    encode_message prost write_response value
encode_response_payload prost (ResponsePayload.create value) =
    encode_message prost create_response value
encode_response_payload prost (ResponsePayload.rename value) =
    encode_message prost empty_response value
encode_response_payload prost (ResponsePayload.unlink value) =
    encode_message prost empty_response value
encode_response_payload prost (ResponsePayload.mkdir value) =
    encode_message prost lookup_response value
encode_response_payload prost (ResponsePayload.rmdir value) =
    encode_message prost empty_response value
encode_response_payload prost (ResponsePayload.statfs value) =
    encode_message prost statfs_response value
encode_response_payload prost (ResponsePayload.getxattr value) =
    encode_message prost getxattr_response value
encode_response_payload prost (ResponsePayload.setxattr value) =
    encode_message prost empty_response value
encode_response_payload prost (ResponsePayload.listxattr value) =
    encode_message prost listxattr_response value
encode_response_payload prost (ResponsePayload.removexattr value) =
    encode_message prost empty_response value
encode_response_payload prost (ResponsePayload.release value) =
    encode_message prost empty_response value
encode_response_payload prost (ResponsePayload.readlink value) =
    encode_message prost readlink_response value
encode_response_payload prost (ResponsePayload.symlink value) =
    encode_message prost symlink_response value
encode_response_payload prost (ResponsePayload.hardlink value) =
    encode_message prost hardlink_response value
encode_response_payload prost (ResponsePayload.setattr value) =
    encode_message prost setattr_response value
encode_response_payload prost (ResponsePayload.flush value) =
    encode_message prost empty_response value
encode_response_payload prost (ResponsePayload.fsync value) =
    encode_message prost empty_response value
encode_response_payload prost (ResponsePayload.fsyncdir value) =
    encode_message prost empty_response value
encode_response_payload prost (ResponsePayload.getlk value) =
    encode_message prost getlk_response value
encode_response_payload prost (ResponsePayload.setlk value) =
    encode_message prost empty_response value
encode_response_payload prost (ResponsePayload.flock value) =
    encode_message prost empty_response value
encode_response_payload prost (ResponsePayload.copy_file_range value) =
    encode_message prost copy_file_range_response value
encode_response_payload prost (ResponsePayload.fallocate value) =
    encode_message prost empty_response value
encode_response_payload prost (ResponsePayload.lseek value) =
    encode_message prost lseek_response value

unfoldable pub read_response_payload :
    {P E : Type 0} → Prost P E → Operation → P → Result ProtocolError ResponsePayload
read_response_payload prost Operation.lookup bytes =
    read_as ResponsePayload.lookup (decode_message prost lookup_response bytes)
read_response_payload prost Operation.getattr bytes =
    read_as ResponsePayload.getattr (decode_message prost getattr_response bytes)
read_response_payload prost Operation.readdir bytes =
    read_as ResponsePayload.readdir (decode_message prost readdir_response bytes)
read_response_payload prost Operation.«open» bytes =
    read_as ResponsePayload.«open» (decode_message prost open_response bytes)
read_response_payload prost Operation.read bytes =
    read_as ResponsePayload.read (decode_message prost read_response bytes)
read_response_payload prost Operation.write bytes =
    read_as ResponsePayload.write (decode_message prost write_response bytes)
read_response_payload prost Operation.create bytes =
    read_as ResponsePayload.create (decode_message prost create_response bytes)
read_response_payload prost Operation.rename bytes =
    read_as ResponsePayload.rename (decode_message prost empty_response bytes)
read_response_payload prost Operation.unlink bytes =
    read_as ResponsePayload.unlink (decode_message prost empty_response bytes)
read_response_payload prost Operation.mkdir bytes =
    read_as ResponsePayload.mkdir (decode_message prost lookup_response bytes)
read_response_payload prost Operation.rmdir bytes =
    read_as ResponsePayload.rmdir (decode_message prost empty_response bytes)
read_response_payload prost Operation.statfs bytes =
    read_as ResponsePayload.statfs (decode_message prost statfs_response bytes)
read_response_payload prost Operation.getxattr bytes =
    read_as ResponsePayload.getxattr (decode_message prost getxattr_response bytes)
read_response_payload prost Operation.setxattr bytes =
    read_as ResponsePayload.setxattr (decode_message prost empty_response bytes)
read_response_payload prost Operation.listxattr bytes =
    read_as ResponsePayload.listxattr (decode_message prost listxattr_response bytes)
read_response_payload prost Operation.removexattr bytes =
    read_as ResponsePayload.removexattr (decode_message prost empty_response bytes)
read_response_payload prost Operation.release bytes =
    read_as ResponsePayload.release (decode_message prost empty_response bytes)
read_response_payload prost Operation.readlink bytes =
    read_as ResponsePayload.readlink (decode_message prost readlink_response bytes)
read_response_payload prost Operation.symlink bytes =
    read_as ResponsePayload.symlink (decode_message prost symlink_response bytes)
read_response_payload prost Operation.hardlink bytes =
    read_as ResponsePayload.hardlink (decode_message prost hardlink_response bytes)
read_response_payload prost Operation.setattr bytes =
    read_as ResponsePayload.setattr (decode_message prost setattr_response bytes)
read_response_payload prost Operation.flush bytes =
    read_as ResponsePayload.flush (decode_message prost empty_response bytes)
read_response_payload prost Operation.fsync bytes =
    read_as ResponsePayload.fsync (decode_message prost empty_response bytes)
read_response_payload prost Operation.fsyncdir bytes =
    read_as ResponsePayload.fsyncdir (decode_message prost empty_response bytes)
read_response_payload prost Operation.getlk bytes =
    read_as ResponsePayload.getlk (decode_message prost getlk_response bytes)
read_response_payload prost Operation.setlk bytes =
    read_as ResponsePayload.setlk (decode_message prost empty_response bytes)
read_response_payload prost Operation.flock bytes =
    read_as ResponsePayload.flock (decode_message prost empty_response bytes)
read_response_payload prost Operation.copy_file_range bytes =
    read_as ResponsePayload.copy_file_range (decode_message prost copy_file_range_response bytes)
read_response_payload prost Operation.fallocate bytes =
    read_as ResponsePayload.fallocate (decode_message prost empty_response bytes)
read_response_payload prost Operation.lseek bytes =
    read_as ResponsePayload.lseek (decode_message prost lseek_response bytes)

unfoldable pub decode_response_payload :
    {P E : Type 0} → Prost P E → Operation → P → Result ProtocolError ResponsePayload
decode_response_payload prost operation bytes = do
  payload ← read_response_payload prost operation bytes
  ResponsePayload.validate payload
  ok payload
