-- ===== src/Protocol/Codec.antt =====
-- fs-protocol/src/codec.rs: the messages on the wire. The coding of a message as bytes is the protobuf
-- library's: `Prost P E` is what the codec has of it, where P stands for the bytes of a payload and E for
-- the bytes of an envelope.
pub mod Payloads
pub mod Envelopes
pub mod Example
use fabric_fs.Prelude.{ℕ, Bool, true, ◌≡◌, String, Option, List, Result, ok, err}
use fabric_fs.Prelude.Int.{ℤ}
use fabric_fs.Protocol.Error.{ProtocolError, encode, decode}
use fabric_fs.Protocol.Messages.{TraceContext, CallerContext, Observation}
use fabric_fs.Protocol.Invalidation.{Invalidation}
use fabric_fs.Protocol.Messages.Requests.{
  LookupRequest, GetattrRequest, ReaddirRequest, OpenRequest, ReadRequest, WriteRequest,
  CreateRequest, RenameRequest, UnlinkRequest, MkdirRequest, RmdirRequest, StatfsRequest,
  GetxattrRequest, SetxattrRequest, ListxattrRequest, RemovexattrRequest, ReleaseRequest,
  ReadlinkRequest, SymlinkRequest, HardlinkRequest, SetattrRequest, FlushRequest, FsyncRequest,
  FsyncdirRequest, GetlkRequest, SetlkRequest, FlockRequest, CopyFileRangeRequest, FallocateRequest,
  LseekRequest,
}
use fabric_fs.Protocol.Messages.Responses.{
  LookupResponse, GetattrResponse, ReaddirResponse, OpenResponse, ReadResponse, WriteResponse,
  CreateResponse, EmptyResponse, StatfsResponse, GetxattrResponse, ListxattrResponse,
  ReadlinkResponse, SymlinkResponse, HardlinkResponse, SetattrResponse, GetlkResponse,
  CopyFileRangeResponse, LseekResponse,
}

-- The messages that a payload is.
pub data MessageShape : Type 0 where
  lookup_request : MessageShape
  getattr_request : MessageShape
  readdir_request : MessageShape
  open_request : MessageShape
  read_request : MessageShape
  write_request : MessageShape
  create_request : MessageShape
  rename_request : MessageShape
  unlink_request : MessageShape
  mkdir_request : MessageShape
  rmdir_request : MessageShape
  statfs_request : MessageShape
  getxattr_request : MessageShape
  setxattr_request : MessageShape
  listxattr_request : MessageShape
  removexattr_request : MessageShape
  release_request : MessageShape
  readlink_request : MessageShape
  symlink_request : MessageShape
  hardlink_request : MessageShape
  setattr_request : MessageShape
  flush_request : MessageShape
  fsync_request : MessageShape
  fsyncdir_request : MessageShape
  getlk_request : MessageShape
  setlk_request : MessageShape
  flock_request : MessageShape
  copy_file_range_request : MessageShape
  fallocate_request : MessageShape
  lseek_request : MessageShape
  lookup_response : MessageShape
  getattr_response : MessageShape
  readdir_response : MessageShape
  open_response : MessageShape
  read_response : MessageShape
  write_response : MessageShape
  create_response : MessageShape
  empty_response : MessageShape
  statfs_response : MessageShape
  getxattr_response : MessageShape
  listxattr_response : MessageShape
  readlink_response : MessageShape
  symlink_response : MessageShape
  hardlink_response : MessageShape
  setattr_response : MessageShape
  getlk_response : MessageShape
  copy_file_range_response : MessageShape
  lseek_response : MessageShape

abbrev pub Message : MessageShape → Type 0
Message lookup_request = LookupRequest
Message getattr_request = GetattrRequest
Message readdir_request = ReaddirRequest
Message open_request = OpenRequest
Message read_request = ReadRequest
Message write_request = WriteRequest
Message create_request = CreateRequest
Message rename_request = RenameRequest
Message unlink_request = UnlinkRequest
Message mkdir_request = MkdirRequest
Message rmdir_request = RmdirRequest
Message statfs_request = StatfsRequest
Message getxattr_request = GetxattrRequest
Message setxattr_request = SetxattrRequest
Message listxattr_request = ListxattrRequest
Message removexattr_request = RemovexattrRequest
Message release_request = ReleaseRequest
Message readlink_request = ReadlinkRequest
Message symlink_request = SymlinkRequest
Message hardlink_request = HardlinkRequest
Message setattr_request = SetattrRequest
Message flush_request = FlushRequest
Message fsync_request = FsyncRequest
Message fsyncdir_request = FsyncdirRequest
Message getlk_request = GetlkRequest
Message setlk_request = SetlkRequest
Message flock_request = FlockRequest
Message copy_file_range_request = CopyFileRangeRequest
Message fallocate_request = FallocateRequest
Message lseek_request = LseekRequest
Message lookup_response = LookupResponse
Message getattr_response = GetattrResponse
Message readdir_response = ReaddirResponse
Message open_response = OpenResponse
Message read_response = ReadResponse
Message write_response = WriteResponse
Message create_response = CreateResponse
Message empty_response = EmptyResponse
Message statfs_response = StatfsResponse
Message getxattr_response = GetxattrResponse
Message listxattr_response = ListxattrResponse
Message readlink_response = ReadlinkResponse
Message symlink_response = SymlinkResponse
Message hardlink_response = HardlinkResponse
Message setattr_response = SetattrResponse
Message getlk_response = GetlkResponse
Message copy_file_range_response = CopyFileRangeResponse
Message lseek_response = LseekResponse

-- `pb::RequestEnvelope`
pub record RawRequest (P : Type 0) : Type 0 where
  pub protocol_version : ℕ
  pub request_id : String
  pub operation : ℕ
  pub namespace : String
  pub deadline_unix_nanos : ℕ
  pub trace : Option TraceContext
  pub payload : P
  pub payload_operation : ℕ
  pub observations : List Observation
  pub caller : Option CallerContext

-- `pb::ResponseEnvelope`
pub record RawResponse (P : Type 0) : Type 0 where
  pub protocol_version : ℕ
  pub request_id : String
  pub operation : ℕ
  pub namespace : String
  pub deadline_unix_nanos : ℕ
  pub trace : Option TraceContext
  pub payload : P
  pub is_success : Bool
  pub errno : ℤ
  pub error_message : String
  pub observations : List Observation
  pub invalidations : List Invalidation
  pub payload_operation : ℕ

-- `Message::encode` and `Message::decode`, with the text of an error; `Vec::new`, `is_empty` and `len`.
pub record Prost (P E : Type 0) : Type 0 where
  pub encode_payload : (shape : MessageShape) → Message shape → Result String P
  pub decode_payload : (shape : MessageShape) → P → Result String (Message shape)
  pub encode_raw_request : RawRequest P → Result String E
  pub decode_raw_request : E → Result String (RawRequest P)
  pub encode_raw_response : RawResponse P → Result String E
  pub decode_raw_response : E → Result String (RawResponse P)
  pub no_bytes : P
  pub is_empty_payload : P → Bool
  pub frame_len : E → ℕ

-- What the library promises: a vector has room for every message, and a message is read back from its
-- bytes.
pub record ProstLaws {P E : Type 0} (prost : Prost P E) : Type 0 where
  pub payload_fits :
      (shape : MessageShape) (m : Message shape) → (p : P) × (prost.encode_payload shape m ≡ ok p)
  pub request_fits : (raw : RawRequest P) → (e : E) × (prost.encode_raw_request raw ≡ ok e)
  pub response_fits : (raw : RawResponse P) → (e : E) × (prost.encode_raw_response raw ≡ ok e)
  pub payload_back :
      (shape : MessageShape) (m : Message shape) (p : P)
      → prost.encode_payload shape m ≡ ok p
      → prost.decode_payload shape p ≡ ok m
  pub request_back :
      (raw : RawRequest P) (e : E)
      → prost.encode_raw_request raw ≡ ok e
      → prost.decode_raw_request e ≡ ok raw
  pub response_back :
      (raw : RawResponse P) (e : E)
      → prost.encode_raw_response raw ≡ ok e
      → prost.decode_raw_response e ≡ ok raw
  pub nothing_empty : prost.is_empty_payload prost.no_bytes ≡ true

abbrev pub map_encode : {A : Type 0} → Result String A → Result ProtocolError A
map_encode (ok a) = ok a
map_encode (err text) = err (encode text)

abbrev pub map_decode : {A : Type 0} → Result String A → Result ProtocolError A
map_decode (ok a) = ok a
map_decode (err text) = err (decode text)

-- `encode_message` and `decode_message` for the messages of a payload.
unfoldable pub encode_message :
    {P E : Type 0} → Prost P E → (shape : MessageShape) → Message shape → Result ProtocolError P
encode_message prost shape m = map_encode (prost.encode_payload shape m)

unfoldable pub decode_message :
    {P E : Type 0} → Prost P E → (shape : MessageShape) → P → Result ProtocolError (Message shape)
decode_message prost shape bytes = map_decode (prost.decode_payload shape bytes)
