-- ===== src/Protocol/OperationSpec/Types.antt =====
-- fs-protocol/src/operation_spec.rs: the types of the operation table, and what an effect asks for.
use fabric_fs.Prelude.{ℕ, Bool, true, false, List, String}
use fabric_fs.Protocol.Operation.{Operation}

pub data MessageShape : Type 0 where
  lookup_request : MessageShape
  lookup_response : MessageShape
  getattr_request : MessageShape
  getattr_response : MessageShape
  readdir_request : MessageShape
  readdir_response : MessageShape
  open_request : MessageShape
  open_response : MessageShape
  read_request : MessageShape
  read_response : MessageShape
  write_request : MessageShape
  write_response : MessageShape
  create_request : MessageShape
  create_response : MessageShape
  rename_request : MessageShape
  unlink_request : MessageShape
  mkdir_request : MessageShape
  rmdir_request : MessageShape
  statfs_request : MessageShape
  statfs_response : MessageShape
  getxattr_request : MessageShape
  getxattr_response : MessageShape
  setxattr_request : MessageShape
  listxattr_request : MessageShape
  listxattr_response : MessageShape
  removexattr_request : MessageShape
  release_request : MessageShape
  readlink_request : MessageShape
  readlink_response : MessageShape
  symlink_request : MessageShape
  symlink_response : MessageShape
  hardlink_request : MessageShape
  hardlink_response : MessageShape
  setattr_request : MessageShape
  setattr_response : MessageShape
  flush_request : MessageShape
  fsync_request : MessageShape
  fsyncdir_request : MessageShape
  getlk_request : MessageShape
  getlk_response : MessageShape
  setlk_request : MessageShape
  flock_request : MessageShape
  copy_file_range_request : MessageShape
  copy_file_range_response : MessageShape
  fallocate_request : MessageShape
  lseek_request : MessageShape
  lseek_response : MessageShape
  empty_response : MessageShape

pub data OperationEffect : Type 0 where
  read_only : OperationEffect
  handle_lifecycle : OperationEffect
  content_mutation : OperationEffect
  create_node : OperationEffect
  delete_node : OperationEffect
  rename_node : OperationEffect
  metadata_mutation : OperationEffect
  xattr_mutation : OperationEffect
  durability : OperationEffect
  lock_state : OperationEffect
  seek_state : OperationEffect

unfoldable pub is_mutation : OperationEffect → Bool
is_mutation read_only = false
is_mutation handle_lifecycle = false
is_mutation content_mutation = true
is_mutation create_node = true
is_mutation delete_node = true
is_mutation rename_node = true
is_mutation metadata_mutation = true
is_mutation xattr_mutation = true
is_mutation durability = true
is_mutation lock_state = true
is_mutation seek_state = false

unfoldable pub requires_path_invalidation : OperationEffect → Bool
requires_path_invalidation read_only = false
requires_path_invalidation handle_lifecycle = false
requires_path_invalidation content_mutation = true
requires_path_invalidation create_node = true
requires_path_invalidation delete_node = true
requires_path_invalidation rename_node = true
requires_path_invalidation metadata_mutation = true
requires_path_invalidation xattr_mutation = true
requires_path_invalidation durability = false
requires_path_invalidation lock_state = false
requires_path_invalidation seek_state = false

pub data PathRole : Type 0 where
  target source : PathRole

pub data PathRootPolicy : Type 0 where
  any_path non_root : PathRootPolicy

pub record PathRoleSpec : Type 0 where
  pub role : PathRole
  pub field_name : String
  pub root : PathRootPolicy

pub data ResponseLimit : Type 0 where
  no_limit : ResponseLimit
  requested_directory_entries : ResponseLimit
  requested_read_bytes : ResponseLimit
  request_write_bytes : ResponseLimit
  requested_xattr_bytes : ResponseLimit
  requested_listxattr_bytes : ResponseLimit
  requested_copy_length : ResponseLimit

pub data ResponseHandle : Type 0 where
  no_handle opened_object : ResponseHandle

pub record OperationSpec : Type 0 where
  pub operation : Operation
  pub wire_value : ℕ
  pub subject_token : String
  pub request_shape : MessageShape
  pub response_shape : MessageShape
  pub path_roles : List PathRoleSpec
  pub effect : OperationEffect
  pub response_limit : ResponseLimit
  pub response_handle : ResponseHandle
