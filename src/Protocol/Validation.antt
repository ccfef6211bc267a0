-- ===== src/Protocol/Validation.antt =====
-- fs-protocol/src/validation.rs: the rules that the fields of requests and responses meet.
use fabric_fs.Prelude.{
  ℕ, ◌+◌, ◌-◌, ◌*◌, ◌/◌, ◌%◌, Bool, true, false, ◌&&◌, ◌||◌, not, Option, none, some, List, [], ◌∷◌,
  String, ◌==◌, ◌===◌, if◌then◌else◌, ltb, bytes, bytes_eq, any, is_empty, length, Result, ok, err,
  ◌>>◌, ◌>>=◌,
}
use fabric_fs.Prelude.Int.{is_negative, is_positive}
use fabric_fs.Protocol.Error.{ProtocolError, invalid_envelope, unknown_file_kind, unknown_open_kind}
use fabric_fs.Protocol.Path.{
  slash, contains_nul, required_path_value, validate_path_field, validate_non_root_path_value,
}
use fabric_fs.Protocol.Messages.{FileAttr, DirectoryEntry, FileLock}
use fabric_fs.Protocol.Messages.Requests.{
  OpenRequest, HardlinkRequest, SetattrRequest, CopyFileRangeRequest, FallocateRequest,
  LseekRequest,
}

abbrev refuse_if : Bool → String → Result ProtocolError (Unit {0})
refuse_if bad text = if bad then err (invalid_envelope text) else ok tt

-- `for x in list { check(x)?; }`
unfoldable pub validate_each :
    {A : Type 0} → (A → Result ProtocolError (Unit {0})) → List A → Result ProtocolError (Unit {0})
validate_each check [] = ok tt
validate_each check (x ∷ xs) = check x >> validate_each check xs

unfoldable pub validate_xattr_name : List ℕ → Result ProtocolError (Unit {0})
validate_xattr_name value = refuse_if (is_empty value || contains_nul value) "invalid xattr name"

unfoldable pub validate_symlink_target : List ℕ → Result ProtocolError (Unit {0})
validate_symlink_target value =
    refuse_if (is_empty value || contains_nul value) "invalid symlink target"

-- pb::OpenKind, pb::FileKind
pub data OpenKind : Type 0 where
  file directory : OpenKind

pub data FileKind : Type 0 where
  file directory symlink : FileKind

unfoldable pub parse_open_kind : ℕ → Result ProtocolError OpenKind
parse_open_kind value =
    if value == 0
    then err (invalid_envelope "open kind must not be unspecified")
    else if value == 1
    then ok OpenKind.file
    else if value == 2
    then ok OpenKind.directory
    else err (unknown_open_kind value)

unfoldable pub parse_file_kind : ℕ → Result ProtocolError FileKind
parse_file_kind value =
    if value == 0
    then err (invalid_envelope "file kind must not be unknown")
    else if value == 1
    then ok FileKind.file
    else if value == 2
    then ok FileKind.directory
    else if value == 3
    then ok FileKind.symlink
    else err (unknown_file_kind value)

abbrev pub same_kind : FileKind → FileKind → Bool
same_kind FileKind.file FileKind.file = true
same_kind FileKind.directory FileKind.directory = true
same_kind FileKind.symlink FileKind.symlink = true
same_kind _ _ = false

unfoldable pub validate_open_request : OpenRequest → Result ProtocolError (Unit {0})
validate_open_request value = do
  validate_path_field value.path
  _ ← parse_open_kind value.kind
  ok tt

unfoldable pub validate_hardlink_request : HardlinkRequest → Result ProtocolError (Unit {0})
validate_hardlink_request value = do
  existing_path ← required_path_value value.existing_path
  new_path ← required_path_value value.new_path
  validate_non_root_path_value existing_path
  validate_non_root_path_value new_path
  refuse_if (existing_path === new_path) "hardlink paths must be distinct"

abbrev is_none {ℓ} : {A : Type ℓ} → Option A → Bool
is_none none = true
is_none (some a) = false

abbrev exceeds : ℕ → Option ℕ → Bool
exceeds limit none = false
exceeds limit (some value) = ltb limit value

-- 0o7777
abbrev permission_bits : ℕ
permission_bits = 4095

unfoldable pub validate_setattr_request : SetattrRequest → Result ProtocolError (Unit {0})
validate_setattr_request value = do
  validate_path_field value.path
  refuse_if (is_none value.mode && is_none value.uid && is_none value.gid && is_none value.size)
      "setattr must request at least one attribute change"
  refuse_if (exceeds permission_bits value.mode) "setattr mode exceeds permission bits"

unfoldable pub validate_lock_range : ℕ → ℕ → Result ProtocolError (Unit {0})
validate_lock_range start end =
    refuse_if (ltb end start) "lock start must be less than or equal to end"

unfoldable pub validate_lock_type : ℕ → Bool → Result ProtocolError (Unit {0})
validate_lock_type value allow_unlock =
    refuse_if (not (value == 0 || value == 1 || allow_unlock && value == 2)) "invalid lock type"

-- `value & !LOCK_NONBLOCK`
abbrev command : ℕ → ℕ
command value = value - 4 * ((value / 4) % 2)

-- The last test of the source asks that `value` has no bit above the lowest four.
unfoldable pub validate_flock_operation : ℕ → Result ProtocolError (Unit {0})
validate_flock_operation value =
    refuse_if
      (not ((command value == 1 || command value == 2 || command value == 8) && value / 16 == 0))
      "invalid flock operation"

unfoldable pub validate_file_lock : FileLock → Result ProtocolError (Unit {0})
validate_file_lock value = do
  validate_lock_range value.start value.end
  validate_lock_type value.typ false

unfoldable pub validate_copy_file_range_request :
    CopyFileRangeRequest → Result ProtocolError (Unit {0})
validate_copy_file_range_request value = do
  validate_path_field value.input_path
  validate_path_field value.output_path
  refuse_if (is_negative value.input_offset || is_negative value.output_offset)
      "copy_file_range offsets must be non-negative"
  refuse_if (not (value.flags == 0)) "copy_file_range flags must be zero"

unfoldable pub validate_fallocate_request : FallocateRequest → Result ProtocolError (Unit {0})
validate_fallocate_request value = do
  validate_path_field value.path
  refuse_if (is_negative value.offset || not (is_positive value.length) || is_negative value.mode)
      "fallocate offset, length, and mode are invalid"

-- SEEK_SET is 0, SEEK_CUR 1, SEEK_END 2, SEEK_DATA 3, SEEK_HOLE 4.
unfoldable pub validate_lseek_request : LseekRequest → Result ProtocolError (Unit {0})
validate_lseek_request value = do
  validate_path_field value.path
  refuse_if
      ((value.whence == 0 || value.whence == 3 || value.whence == 4) && is_negative value.offset)
      "lseek offset must be non-negative"
  refuse_if (ltb 4 value.whence) "invalid lseek whence"

abbrev required_attr : Option FileAttr → Result ProtocolError FileAttr
required_attr (some attr) = ok attr
required_attr none = err (invalid_envelope "missing file attr")

abbrev mismatches : FileKind → Option FileKind → Bool
mismatches kind none = false
mismatches kind (some expected) = not (same_kind kind expected)

unfoldable pub validate_attr_field_kind :
    Option FileAttr → Option FileKind → Result ProtocolError (Unit {0})
validate_attr_field_kind value expected = do
  attr ← required_attr value
  refuse_if (attr.inode == 0) "inode must be nonzero"
  kind ← parse_file_kind attr.kind
  refuse_if (mismatches kind expected) "file attr kind does not match operation"

unfoldable pub validate_attr_field : Option FileAttr → Result ProtocolError (Unit {0})
validate_attr_field value = validate_attr_field_kind value none

unfoldable pub validate_non_directory_attr : Option FileAttr → Result ProtocolError (Unit {0})
validate_non_directory_attr value = do
  attr ← required_attr value
  refuse_if (attr.inode == 0) "inode must be nonzero"
  kind ← parse_file_kind attr.kind
  refuse_if (same_kind kind FileKind.directory) "hardlink attr kind must not be directory"

unfoldable pub validate_file_kind : ℕ → Result ProtocolError (Unit {0})
validate_file_kind value = do _ ← parse_file_kind value; ok tt

unfoldable pub validate_directory_entry : DirectoryEntry → Result ProtocolError (Unit {0})
validate_directory_entry value = do
  refuse_if
      (value.inode == 0
        || is_empty value.name
        || value.name === bytes "."
        || value.name === bytes ".."
        || any (λ c. c == slash) value.name
        || contains_nul value.name)
      "invalid directory entry"
  validate_file_kind value.kind

unfoldable pub listxattr_response_size : List (List ℕ) → ℕ
listxattr_response_size [] = 0
listxattr_response_size (name ∷ names) = length name + 1 + listxattr_response_size names
