-- ===== src/Protocol/Messages/Requests.antt =====
-- fs-protocol/proto/fs.proto: the requests. The field `data` of a write is `content` here.
use fabric_fs.Prelude.{ℕ, Bool, List, Option}
use fabric_fs.Prelude.Int.{ℤ}
use fabric_fs.Protocol.Messages.{PathDto}

pub record LookupRequest : Type 0 where
  pub path : Option PathDto

pub record GetattrRequest : Type 0 where
  pub path : Option PathDto

pub record ReaddirRequest : Type 0 where
  pub path : Option PathDto
  pub offset : ℕ
  pub max_entries : ℕ

pub record OpenRequest : Type 0 where
  pub path : Option PathDto
  pub flags : ℕ
  pub kind : ℕ

pub record ReadRequest : Type 0 where
  pub path : Option PathDto
  pub handle : ℕ
  pub offset : ℕ
  pub size : ℕ

pub record WriteRequest : Type 0 where
  pub path : Option PathDto
  pub handle : ℕ
  pub offset : ℕ
  pub content : List ℕ

pub record CreateRequest : Type 0 where
  pub path : Option PathDto
  pub flags : ℕ
  pub mode : ℕ

pub record RenameRequest : Type 0 where
  pub old_path : Option PathDto
  pub new_path : Option PathDto

pub record UnlinkRequest : Type 0 where
  pub path : Option PathDto

pub record MkdirRequest : Type 0 where
  pub path : Option PathDto
  pub mode : ℕ

pub record RmdirRequest : Type 0 where
  pub path : Option PathDto

pub record StatfsRequest : Type 0 where
  pub path : Option PathDto

pub record GetxattrRequest : Type 0 where
  pub path : Option PathDto
  pub name : List ℕ
  pub size : ℕ

pub record SetxattrRequest : Type 0 where
  pub path : Option PathDto
  pub name : List ℕ
  pub value : List ℕ
  pub flags : ℕ

pub record ListxattrRequest : Type 0 where
  pub path : Option PathDto
  pub size : ℕ

pub record RemovexattrRequest : Type 0 where
  pub path : Option PathDto
  pub name : List ℕ

pub record ReleaseRequest : Type 0 where
  pub path : Option PathDto
  pub handle : ℕ
  pub flags : ℕ

pub record ReadlinkRequest : Type 0 where
  pub path : Option PathDto

pub record SymlinkRequest : Type 0 where
  pub path : Option PathDto
  pub target : List ℕ

pub record HardlinkRequest : Type 0 where
  pub existing_path : Option PathDto
  pub new_path : Option PathDto

pub record SetattrRequest : Type 0 where
  pub path : Option PathDto
  pub mode : Option ℕ
  pub uid : Option ℕ
  pub gid : Option ℕ
  pub size : Option ℕ
  pub handle : Option ℕ

pub record FlushRequest : Type 0 where
  pub path : Option PathDto
  pub handle : ℕ
  pub lock_owner : ℕ

pub record FsyncRequest : Type 0 where
  pub path : Option PathDto
  pub handle : ℕ
  pub datasync : Bool

pub record FsyncdirRequest : Type 0 where
  pub path : Option PathDto
  pub handle : ℕ
  pub datasync : Bool

pub record GetlkRequest : Type 0 where
  pub path : Option PathDto
  pub handle : ℕ
  pub owner : ℕ
  pub start : ℕ
  pub end : ℕ
  pub typ : ℕ
  pub pid : ℕ

pub record SetlkRequest : Type 0 where
  pub path : Option PathDto
  pub handle : ℕ
  pub owner : ℕ
  pub start : ℕ
  pub end : ℕ
  pub typ : ℕ
  pub pid : ℕ
  pub wait : Bool

pub record FlockRequest : Type 0 where
  pub path : Option PathDto
  pub handle : ℕ
  pub owner : ℕ
  pub operation : ℕ

pub record CopyFileRangeRequest : Type 0 where
  pub input_path : Option PathDto
  pub input_handle : ℕ
  pub input_offset : ℤ
  pub output_path : Option PathDto
  pub output_handle : ℕ
  pub output_offset : ℤ
  pub length : ℕ
  pub flags : ℕ

pub record FallocateRequest : Type 0 where
  pub path : Option PathDto
  pub handle : ℕ
  pub offset : ℤ
  pub length : ℤ
  pub mode : ℤ

pub record LseekRequest : Type 0 where
  pub path : Option PathDto
  pub handle : ℕ
  pub offset : ℤ
  pub whence : ℕ
