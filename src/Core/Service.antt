-- ===== src/Core/Service.antt =====
-- fs-core/src/lib.rs: the service behind the dispatcher, its errors, and what is known of a call.
use Prim.Native.String.{◌++◌ as text_append}
use fabric_fs.Prelude.{ℕ, String, Option, none, some, Result, err, ◌===◌, string_eq, if◌then◌else◌}
use fabric_fs.Protocol.Errno.{Errno, not_supported}
use fabric_fs.Protocol.Operation.{Operation}
use fabric_fs.Protocol.OperationSpec.Table.{as_str}
use fabric_fs.Protocol.Messages.{CallerContext}
use fabric_fs.Protocol.Messages.Requests.{
  LookupRequest, GetattrRequest, ReaddirRequest, OpenRequest, ReadRequest, WriteRequest,
  CreateRequest, RenameRequest, UnlinkRequest, MkdirRequest, RmdirRequest, StatfsRequest,
  GetxattrRequest, SetxattrRequest, ListxattrRequest, RemovexattrRequest, ReleaseRequest,
  ReadlinkRequest, SymlinkRequest, HardlinkRequest, SetattrRequest, FlushRequest, FsyncRequest,
  FsyncdirRequest, GetlkRequest, SetlkRequest, FlockRequest, CopyFileRangeRequest, FallocateRequest,
  LseekRequest,
}
use fabric_fs.Protocol.Messages.Responses.{
  LookupResponse, GetattrResponse, ReaddirResponse, OpenResponse, ReadResponse, WriteResponse,
  CreateResponse, EmptyResponse, StatfsResponse, GetxattrResponse, ListxattrResponse,
  ReadlinkResponse, SymlinkResponse, HardlinkResponse, SetattrResponse, GetlkResponse,
  CopyFileRangeResponse, LseekResponse,
}
use fabric_fs.Protocol.RequestEnvelope.{RequestEnvelope}
use fabric_fs.Protocol.ResponseEnvelope.{as_error}

pub record RpcMetadata : Type 0 where
  pub request_id : String
  pub namespace : String
  pub caller : Option CallerContext
  pub peer_identity : Option String
  pub trace_id : Option String
  pub payload_len : ℕ
  pub received_unix_nanos : ℕ

-- `RpcMetadata::for_request`, with the reading of the clock.
unfoldable pub for_request : RequestEnvelope → ℕ → ℕ → RpcMetadata
for_request request payload_len now = record {
  request_id = request.request_id;
  namespace = request.namespace;
  caller = request.caller;
  peer_identity = none;
  trace_id = if request.trace.trace_id === "" then none else some request.trace.trace_id;
  payload_len = payload_len;
  received_unix_nanos = now;
}

pub record FsError : Type 0 where
  pub errno : Errno
  pub message : String

-- `FsError::new`
unfoldable pub fs_error : Errno → String → FsError
fs_error errno message = record { errno = as_error errno; message = message }

abbrev pub FsResult : Type 0 → Type 0
FsResult A = Result FsError A

-- A handler reads the service's state, and changes it whether or not it succeeds.
abbrev pub Handler : Type 0 → Type 0 → Type 0 → Type 0
Handler S Request Response = S → Request → RpcMetadata → S × FsResult Response

pub record FileSystemService (S : Type 0) : Type 0 where
  pub lookup : Handler S LookupRequest LookupResponse
  pub getattr : Handler S GetattrRequest GetattrResponse
  pub readdir : Handler S ReaddirRequest ReaddirResponse
  pub «open» : Handler S OpenRequest OpenResponse
  pub read : Handler S ReadRequest ReadResponse
  pub write : Handler S WriteRequest WriteResponse
  pub create : Handler S CreateRequest CreateResponse
  pub rename : Handler S RenameRequest EmptyResponse
  pub unlink : Handler S UnlinkRequest EmptyResponse
  pub mkdir : Handler S MkdirRequest LookupResponse
  pub rmdir : Handler S RmdirRequest EmptyResponse
  pub statfs : Handler S StatfsRequest StatfsResponse
  pub getxattr : Handler S GetxattrRequest GetxattrResponse
  pub setxattr : Handler S SetxattrRequest EmptyResponse
  pub listxattr : Handler S ListxattrRequest ListxattrResponse
  pub removexattr : Handler S RemovexattrRequest EmptyResponse
  pub release : Handler S ReleaseRequest EmptyResponse
  pub readlink : Handler S ReadlinkRequest ReadlinkResponse
  pub symlink : Handler S SymlinkRequest SymlinkResponse
  pub hardlink : Handler S HardlinkRequest HardlinkResponse
  pub setattr : Handler S SetattrRequest SetattrResponse
  pub flush : Handler S FlushRequest EmptyResponse
  pub fsync : Handler S FsyncRequest EmptyResponse
  pub fsyncdir : Handler S FsyncdirRequest EmptyResponse
  pub getlk : Handler S GetlkRequest GetlkResponse
  pub setlk : Handler S SetlkRequest EmptyResponse
  pub flock : Handler S FlockRequest EmptyResponse
  pub copy_file_range : Handler S CopyFileRangeRequest CopyFileRangeResponse
  pub fallocate : Handler S FallocateRequest EmptyResponse
  pub lseek : Handler S LseekRequest LseekResponse

-- Every operation has a token in the operation table.
abbrev token_text : Option String → String
token_text (some token) = token
token_text none = ""

unfoldable pub unsupported : {A : Type 0} → Operation → FsResult A
unsupported operation = err (
    fs_error not_supported (
      text_append "operation " (text_append (token_text (as_str operation)) " is not implemented")))

-- The bodies that a trait's implementation inherits.
unfoldable pub default_service : {S : Type 0} → FileSystemService S
default_service = record {
  lookup = λ s request metadata. (s, unsupported Operation.lookup);
  getattr = λ s request metadata. (s, unsupported Operation.getattr);
  readdir = λ s request metadata. (s, unsupported Operation.readdir);
  «open» = λ s request metadata. (s, unsupported Operation.«open»);
  read = λ s request metadata. (s, unsupported Operation.read);
  write = λ s request metadata. (s, unsupported Operation.write);
  create = λ s request metadata. (s, unsupported Operation.create);
  rename = λ s request metadata. (s, unsupported Operation.rename);
  unlink = λ s request metadata. (s, unsupported Operation.unlink);
  mkdir = λ s request metadata. (s, unsupported Operation.mkdir);
  rmdir = λ s request metadata. (s, unsupported Operation.rmdir);
  statfs = λ s request metadata. (s, unsupported Operation.statfs);
  getxattr = λ s request metadata. (s, unsupported Operation.getxattr);
  setxattr = λ s request metadata. (s, unsupported Operation.setxattr);
  listxattr = λ s request metadata. (s, unsupported Operation.listxattr);
  removexattr = λ s request metadata. (s, unsupported Operation.removexattr);
  release = λ s request metadata. (s, unsupported Operation.release);
  readlink = λ s request metadata. (s, unsupported Operation.readlink);
  symlink = λ s request metadata. (s, unsupported Operation.symlink);
  hardlink = λ s request metadata. (s, unsupported Operation.hardlink);
  setattr = λ s request metadata. (s, unsupported Operation.setattr);
  flush = λ s request metadata. (s, unsupported Operation.flush);
  fsync = λ s request metadata. (s, unsupported Operation.fsync);
  fsyncdir = λ s request metadata. (s, unsupported Operation.fsyncdir);
  getlk = λ s request metadata. (s, unsupported Operation.getlk);
  setlk = λ s request metadata. (s, unsupported Operation.setlk);
  flock = λ s request metadata. (s, unsupported Operation.flock);
  copy_file_range = λ s request metadata. (s, unsupported Operation.copy_file_range);
  fallocate = λ s request metadata. (s, unsupported Operation.fallocate);
  lseek = λ s request metadata. (s, unsupported Operation.lseek);
}
