-- ===== src/Protocol/Messages/Responses.antt =====
-- fs-protocol/proto/fs.proto: the responses. The field `data` of a read is `content` here.
use fabric_fs.Prelude.{ℕ, Bool, List, Option}
use fabric_fs.Prelude.Int.{ℤ}
use fabric_fs.Protocol.Messages.{FileAttr, DirectoryEntry, FileLock, StatFs}

pub record LookupResponse : Type 0 where
  pub attr : Option FileAttr

pub record GetattrResponse : Type 0 where
  pub attr : Option FileAttr

pub record ReaddirResponse : Type 0 where
  pub entries : List DirectoryEntry
  pub end : Bool

pub record OpenResponse : Type 0 where
  pub handle : ℕ
  pub flags : ℕ

pub record ReadResponse : Type 0 where
  pub content : List ℕ

pub record WriteResponse : Type 0 where
  pub bytes_written : ℕ

pub record CreateResponse : Type 0 where
  pub attr : Option FileAttr
  pub handle : ℕ

pub record StatfsResponse : Type 0 where
  pub stat : Option StatFs

pub record GetxattrResponse : Type 0 where
  pub value : List ℕ

pub record ListxattrResponse : Type 0 where
  pub names : List (List ℕ)

pub record ReadlinkResponse : Type 0 where
  pub target : List ℕ

pub record SymlinkResponse : Type 0 where
  pub attr : Option FileAttr

pub record HardlinkResponse : Type 0 where
  pub attr : Option FileAttr

pub record SetattrResponse : Type 0 where
  pub attr : Option FileAttr

pub record GetlkResponse : Type 0 where
  pub lock : Option FileLock

pub record CopyFileRangeResponse : Type 0 where
  pub bytes_copied : ℕ

pub record LseekResponse : Type 0 where
  pub offset : ℤ

-- A message without fields.
abbrev pub EmptyResponse : Type 0
EmptyResponse = Unit {0}
