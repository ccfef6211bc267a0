-- ===== src/Protocol/Codec/Payloads/Back.antt =====
-- fs-protocol/src/payload.rs: a payload is read back from its bytes.
use fabric_fs.Prelude.{◌≡◌, refl, String, Result, ok, err, arith}
use fabric_fs.Protocol.RequestPayload
use fabric_fs.Protocol.RequestPayload.{RequestPayload}
use fabric_fs.Protocol.ResponsePayload
use fabric_fs.Protocol.ResponsePayload.{ResponsePayload}
use fabric_fs.Protocol.Codec.{
  Prost, ProstLaws, MessageShape, Message, map_encode, encode_message, decode_message,
  lookup_request, getattr_request, readdir_request, open_request, read_request, write_request,
  create_request, rename_request, unlink_request, mkdir_request, rmdir_request, statfs_request,
  getxattr_request, setxattr_request, listxattr_request, removexattr_request, release_request,
  readlink_request, symlink_request, hardlink_request, setattr_request, flush_request,
  fsync_request, fsyncdir_request, getlk_request, setlk_request, flock_request,
  copy_file_range_request, fallocate_request, lseek_request, lookup_response, getattr_response,
  readdir_response, open_response, read_response, write_response, create_response, empty_response,
  statfs_response, getxattr_response, listxattr_response, readlink_response, symlink_response,
  hardlink_response, setattr_response, getlk_response, copy_file_range_response, lseek_response,
}
use fabric_fs.Protocol.Codec.Payloads.{
  encode_request_payload, read_request_payload, decode_request_payload, encode_response_payload,
  read_response_payload, decode_response_payload,
}

pub encoded : {A : Type 0} (r : Result String A) (a : A) → map_encode r ≡ ok a → r ≡ ok a
encoded (ok b) a h = ground (arith)
encoded (err e) a h = cc

module _ {P E : Type 0} (prost : Prost P E) (laws : ProstLaws prost) where
  message-back :
      (shape : MessageShape) (m : Message shape) (p : P)
      → encode_message prost shape m ≡ ok p
      → decode_message prost shape p ≡ ok m
  unfolding encode_message decode_message
  message-back shape m p h =
      rw (laws.payload_back shape m p (encoded (prost.encode_payload shape m) p h)) refl

  message-fits :
      (shape : MessageShape) (m : Message shape) → (p : P) × (encode_message prost shape m ≡ ok p)
  unfolding encode_message
  message-fits shape m = let (p, h) = laws.payload_fits shape m in (p, rw h refl)

  pub request_payload-back :
      (payload : RequestPayload) (p : P)
      → encode_request_payload prost payload ≡ ok p
      → read_request_payload prost (RequestPayload.operation payload) p ≡ ok payload
  unfolding encode_request_payload read_request_payload RequestPayload.operation
  request_payload-back (RequestPayload.lookup value) p h =
      rw (message-back lookup_request value p h) refl
  request_payload-back (RequestPayload.getattr value) p h =
      rw (message-back getattr_request value p h) refl
  request_payload-back (RequestPayload.readdir value) p h =
      rw (message-back readdir_request value p h) refl
  request_payload-back (RequestPayload.«open» value) p h =
      rw (message-back open_request value p h) refl
  request_payload-back (RequestPayload.read value) p h =
      rw (message-back read_request value p h) refl
  request_payload-back (RequestPayload.write value) p h =
      rw (message-back write_request value p h) refl
  request_payload-back (RequestPayload.create value) p h =
      rw (message-back create_request value p h) refl
  request_payload-back (RequestPayload.rename value) p h =
      rw (message-back rename_request value p h) refl
  request_payload-back (RequestPayload.unlink value) p h =
      rw (message-back unlink_request value p h) refl
  request_payload-back (RequestPayload.mkdir value) p h =
      rw (message-back mkdir_request value p h) refl
  request_payload-back (RequestPayload.rmdir value) p h =
      rw (message-back rmdir_request value p h) refl
  request_payload-back (RequestPayload.statfs value) p h =
      rw (message-back statfs_request value p h) refl
  request_payload-back (RequestPayload.getxattr value) p h =
      rw (message-back getxattr_request value p h) refl
  request_payload-back (RequestPayload.setxattr value) p h =
      rw (message-back setxattr_request value p h) refl
  request_payload-back (RequestPayload.listxattr value) p h =
      rw (message-back listxattr_request value p h) refl
  request_payload-back (RequestPayload.removexattr value) p h =
      rw (message-back removexattr_request value p h) refl
  request_payload-back (RequestPayload.release value) p h =
      rw (message-back release_request value p h) refl
  request_payload-back (RequestPayload.readlink value) p h =
      rw (message-back readlink_request value p h) refl
  request_payload-back (RequestPayload.symlink value) p h =
      rw (message-back symlink_request value p h) refl
  request_payload-back (RequestPayload.hardlink value) p h =
      rw (message-back hardlink_request value p h) refl
  request_payload-back (RequestPayload.setattr value) p h =
      rw (message-back setattr_request value p h) refl
  request_payload-back (RequestPayload.flush value) p h =
      rw (message-back flush_request value p h) refl
  request_payload-back (RequestPayload.fsync value) p h =
      rw (message-back fsync_request value p h) refl
  request_payload-back (RequestPayload.fsyncdir value) p h =
      rw (message-back fsyncdir_request value p h) refl
  request_payload-back (RequestPayload.getlk value) p h =
      rw (message-back getlk_request value p h) refl
  request_payload-back (RequestPayload.setlk value) p h =
      rw (message-back setlk_request value p h) refl
  request_payload-back (RequestPayload.flock value) p h =
      rw (message-back flock_request value p h) refl
  request_payload-back (RequestPayload.copy_file_range value) p h =
      rw (message-back copy_file_range_request value p h) refl
  request_payload-back (RequestPayload.fallocate value) p h =
      rw (message-back fallocate_request value p h) refl
  request_payload-back (RequestPayload.lseek value) p h =
      rw (message-back lseek_request value p h) refl

  pub request_payload-fits :
      (payload : RequestPayload) → (p : P) × (encode_request_payload prost payload ≡ ok p)
  unfolding encode_request_payload
  request_payload-fits (RequestPayload.lookup value) = message-fits lookup_request value
  request_payload-fits (RequestPayload.getattr value) = message-fits getattr_request value
  request_payload-fits (RequestPayload.readdir value) = message-fits readdir_request value
  request_payload-fits (RequestPayload.«open» value) = message-fits open_request value
  request_payload-fits (RequestPayload.read value) = message-fits read_request value
  request_payload-fits (RequestPayload.write value) = message-fits write_request value
  request_payload-fits (RequestPayload.create value) = message-fits create_request value
  request_payload-fits (RequestPayload.rename value) = message-fits rename_request value
  request_payload-fits (RequestPayload.unlink value) = message-fits unlink_request value
  request_payload-fits (RequestPayload.mkdir value) = message-fits mkdir_request value
  request_payload-fits (RequestPayload.rmdir value) = message-fits rmdir_request value
  request_payload-fits (RequestPayload.statfs value) = message-fits statfs_request value
  request_payload-fits (RequestPayload.getxattr value) = message-fits getxattr_request value
  request_payload-fits (RequestPayload.setxattr value) = message-fits setxattr_request value
  request_payload-fits (RequestPayload.listxattr value) = message-fits listxattr_request value
  request_payload-fits (RequestPayload.removexattr value) = message-fits removexattr_request value
  request_payload-fits (RequestPayload.release value) = message-fits release_request value
  request_payload-fits (RequestPayload.readlink value) = message-fits readlink_request value
  request_payload-fits (RequestPayload.symlink value) = message-fits symlink_request value
  request_payload-fits (RequestPayload.hardlink value) = message-fits hardlink_request value
  request_payload-fits (RequestPayload.setattr value) = message-fits setattr_request value
  request_payload-fits (RequestPayload.flush value) = message-fits flush_request value
  request_payload-fits (RequestPayload.fsync value) = message-fits fsync_request value
  request_payload-fits (RequestPayload.fsyncdir value) = message-fits fsyncdir_request value
  request_payload-fits (RequestPayload.getlk value) = message-fits getlk_request value
  request_payload-fits (RequestPayload.setlk value) = message-fits setlk_request value
  request_payload-fits (RequestPayload.flock value) = message-fits flock_request value
  request_payload-fits (RequestPayload.copy_file_range value) =
      message-fits copy_file_range_request value
  request_payload-fits (RequestPayload.fallocate value) = message-fits fallocate_request value
  request_payload-fits (RequestPayload.lseek value) = message-fits lseek_request value

  pub response_payload-back :
      (payload : ResponsePayload) (p : P)
      → encode_response_payload prost payload ≡ ok p
      → read_response_payload prost (ResponsePayload.operation payload) p ≡ ok payload
  unfolding encode_response_payload read_response_payload ResponsePayload.operation
  response_payload-back (ResponsePayload.lookup value) p h =
      rw (message-back lookup_response value p h) refl
  response_payload-back (ResponsePayload.getattr value) p h =
      rw (message-back getattr_response value p h) refl
  response_payload-back (ResponsePayload.readdir value) p h =
      rw (message-back readdir_response value p h) refl
  response_payload-back (ResponsePayload.«open» value) p h =
      rw (message-back open_response value p h) refl
  response_payload-back (ResponsePayload.read value) p h =
      rw (message-back read_response value p h) refl
  response_payload-back (ResponsePayload.write value) p h =
      rw (message-back write_response value p h) refl
  response_payload-back (ResponsePayload.create value) p h =
      rw (message-back create_response value p h) refl
  response_payload-back (ResponsePayload.rename value) p h =
      rw (message-back empty_response value p h) refl
  response_payload-back (ResponsePayload.unlink value) p h =
      rw (message-back empty_response value p h) refl
  response_payload-back (ResponsePayload.mkdir value) p h =
      rw (message-back lookup_response value p h) refl
  response_payload-back (ResponsePayload.rmdir value) p h =
      rw (message-back empty_response value p h) refl
  response_payload-back (ResponsePayload.statfs value) p h =
      rw (message-back statfs_response value p h) refl
  response_payload-back (ResponsePayload.getxattr value) p h =
      rw (message-back getxattr_response value p h) refl
  response_payload-back (ResponsePayload.setxattr value) p h =
      rw (message-back empty_response value p h) refl
  response_payload-back (ResponsePayload.listxattr value) p h =
      rw (message-back listxattr_response value p h) refl
  response_payload-back (ResponsePayload.removexattr value) p h =
      rw (message-back empty_response value p h) refl
  response_payload-back (ResponsePayload.release value) p h =
      rw (message-back empty_response value p h) refl
  response_payload-back (ResponsePayload.readlink value) p h =
      rw (message-back readlink_response value p h) refl
  response_payload-back (ResponsePayload.symlink value) p h =
      rw (message-back symlink_response value p h) refl
  response_payload-back (ResponsePayload.hardlink value) p h =
      rw (message-back hardlink_response value p h) refl
  response_payload-back (ResponsePayload.setattr value) p h =
      rw (message-back setattr_response value p h) refl
  response_payload-back (ResponsePayload.flush value) p h =
      rw (message-back empty_response value p h) refl
  response_payload-back (ResponsePayload.fsync value) p h =
      rw (message-back empty_response value p h) refl
  response_payload-back (ResponsePayload.fsyncdir value) p h =
      rw (message-back empty_response value p h) refl
  response_payload-back (ResponsePayload.getlk value) p h =
      rw (message-back getlk_response value p h) refl
  response_payload-back (ResponsePayload.setlk value) p h =
      rw (message-back empty_response value p h) refl
  response_payload-back (ResponsePayload.flock value) p h =
      rw (message-back empty_response value p h) refl
  response_payload-back (ResponsePayload.copy_file_range value) p h =
      rw (message-back copy_file_range_response value p h) refl
  response_payload-back (ResponsePayload.fallocate value) p h =
      rw (message-back empty_response value p h) refl
  response_payload-back (ResponsePayload.lseek value) p h =
      rw (message-back lseek_response value p h) refl

  pub response_payload-fits :
      (payload : ResponsePayload) → (p : P) × (encode_response_payload prost payload ≡ ok p)
  unfolding encode_response_payload
  response_payload-fits (ResponsePayload.lookup value) = message-fits lookup_response value
  response_payload-fits (ResponsePayload.getattr value) = message-fits getattr_response value
  response_payload-fits (ResponsePayload.readdir value) = message-fits readdir_response value
  response_payload-fits (ResponsePayload.«open» value) = message-fits open_response value
  response_payload-fits (ResponsePayload.read value) = message-fits read_response value
  response_payload-fits (ResponsePayload.write value) = message-fits write_response value
  response_payload-fits (ResponsePayload.create value) = message-fits create_response value
  response_payload-fits (ResponsePayload.rename value) = message-fits empty_response value
  response_payload-fits (ResponsePayload.unlink value) = message-fits empty_response value
  response_payload-fits (ResponsePayload.mkdir value) = message-fits lookup_response value
  response_payload-fits (ResponsePayload.rmdir value) = message-fits empty_response value
  response_payload-fits (ResponsePayload.statfs value) = message-fits statfs_response value
  response_payload-fits (ResponsePayload.getxattr value) = message-fits getxattr_response value
  response_payload-fits (ResponsePayload.setxattr value) = message-fits empty_response value
  response_payload-fits (ResponsePayload.listxattr value) = message-fits listxattr_response value
  response_payload-fits (ResponsePayload.removexattr value) = message-fits empty_response value
  response_payload-fits (ResponsePayload.release value) = message-fits empty_response value
  response_payload-fits (ResponsePayload.readlink value) = message-fits readlink_response value
  response_payload-fits (ResponsePayload.symlink value) = message-fits symlink_response value
  response_payload-fits (ResponsePayload.hardlink value) = message-fits hardlink_response value
  response_payload-fits (ResponsePayload.setattr value) = message-fits setattr_response value
  response_payload-fits (ResponsePayload.flush value) = message-fits empty_response value
  response_payload-fits (ResponsePayload.fsync value) = message-fits empty_response value
  response_payload-fits (ResponsePayload.fsyncdir value) = message-fits empty_response value
  response_payload-fits (ResponsePayload.getlk value) = message-fits getlk_response value
  response_payload-fits (ResponsePayload.setlk value) = message-fits empty_response value
  response_payload-fits (ResponsePayload.flock value) = message-fits empty_response value
  response_payload-fits (ResponsePayload.copy_file_range value) =
      message-fits copy_file_range_response value
  response_payload-fits (ResponsePayload.fallocate value) = message-fits empty_response value
  response_payload-fits (ResponsePayload.lseek value) = message-fits lseek_response value

  -- A valid payload is decoded again, and no other.
  pub decode_request_payload-back :
      (payload : RequestPayload) (p : P)
      → encode_request_payload prost payload ≡ ok p
      → RequestPayload.validate payload ≡ ok tt
      → decode_request_payload prost (RequestPayload.operation payload) p ≡ ok payload
  unfolding decode_request_payload
  decode_request_payload-back payload p h valid = rw (request_payload-back payload p h, valid) refl

  pub decode_response_payload-back :
      (payload : ResponsePayload) (p : P)
      → encode_response_payload prost payload ≡ ok p
      → ResponsePayload.validate payload ≡ ok tt
      → decode_response_payload prost (ResponsePayload.operation payload) p ≡ ok payload
  unfolding decode_response_payload
  decode_response_payload-back payload p h valid =
      rw (response_payload-back payload p h, valid) refl
