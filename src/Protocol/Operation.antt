-- ===== src/Protocol/Operation.antt =====
-- fs-protocol/src/operation.rs, `Operation`: the operations of the protocol and their discriminants.
use fabric_fs.Prelude.{ℕ, Bool, ◌==◌}

pub data Operation : Type 0 where
  lookup : Operation
  getattr : Operation
  readdir : Operation
  «open» : Operation
  read : Operation
  write : Operation
  create : Operation
  rename : Operation
  unlink : Operation
  mkdir : Operation
  rmdir : Operation
  statfs : Operation
  getxattr : Operation
  setxattr : Operation
  listxattr : Operation
  removexattr : Operation
  release : Operation
  readlink : Operation
  symlink : Operation
  hardlink : Operation
  setattr : Operation
  flush : Operation
  fsync : Operation
  fsyncdir : Operation
  getlk : Operation
  setlk : Operation
  flock : Operation
  copy_file_range : Operation
  fallocate : Operation
  lseek : Operation

-- `operation as usize`
unfoldable pub discriminant : Operation → ℕ
discriminant lookup = 1
discriminant getattr = 2
discriminant readdir = 3
discriminant «open» = 4
discriminant read = 5
discriminant write = 6
discriminant create = 7
discriminant rename = 8
discriminant unlink = 9
discriminant mkdir = 10
discriminant rmdir = 11
discriminant statfs = 12
discriminant getxattr = 13
discriminant setxattr = 14
discriminant listxattr = 15
discriminant removexattr = 16
discriminant release = 17
discriminant readlink = 18
discriminant symlink = 19
discriminant hardlink = 20
discriminant setattr = 21
discriminant flush = 22
discriminant fsync = 23
discriminant fsyncdir = 24
discriminant getlk = 25
discriminant setlk = 26
discriminant flock = 27
discriminant copy_file_range = 28
discriminant fallocate = 29
discriminant lseek = 30

-- The derived equality.
unfoldable pub same_operation : Operation → Operation → Bool
same_operation a b = discriminant a == discriminant b
