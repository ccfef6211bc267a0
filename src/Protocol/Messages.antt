-- ===== src/Protocol/Messages.antt =====
-- fs-protocol/proto/fs.proto: the messages that several requests and responses have, as records. An
-- enumeration, a lock type, a flock operation and a whence are `i32` on the wire, and ℕ stands for
-- them: a negative one is refused like any other unknown one. Paths, names and targets are bytes.
pub mod Requests
pub mod Responses
use fabric_fs.Prelude.{ℕ, List, [], String}

-- The message `PathDto` has the one field `path`.
abbrev pub PathDto : Type 0
PathDto = List ℕ

pub record FileAttr : Type 0 where
  pub inode : ℕ
  pub size : ℕ
  pub kind : ℕ
  pub perm : ℕ
  pub mtime_unix_nanos : ℕ
  pub uid : ℕ
  pub gid : ℕ
  pub nlink : ℕ
  pub atime_unix_nanos : ℕ
  pub ctime_unix_nanos : ℕ
  pub crtime_unix_nanos : ℕ

pub record DirectoryEntry : Type 0 where
  pub inode : ℕ
  pub name : List ℕ
  pub kind : ℕ

pub record FileLock : Type 0 where
  pub start : ℕ
  pub end : ℕ
  pub typ : ℕ
  pub pid : ℕ

pub record StatFs : Type 0 where
  pub blocks : ℕ
  pub blocks_free : ℕ
  pub files : ℕ
  pub files_free : ℕ
  pub block_size : ℕ
  pub name_max : ℕ
  pub blocks_available : ℕ
  pub fragment_size : ℕ

pub record TraceEntry : Type 0 where
  pub key : String
  pub value : String

pub record TraceContext : Type 0 where
  pub trace_id : String
  pub parent_id : String
  pub entries : List TraceEntry

pub record Observation : Type 0 where
  pub key : String
  pub value : String

pub record CallerContext : Type 0 where
  pub uid : ℕ
  pub gid : ℕ
  pub pid : ℕ

unfoldable pub default_trace : TraceContext
default_trace = record { trace_id = ""; parent_id = ""; entries = [] }
