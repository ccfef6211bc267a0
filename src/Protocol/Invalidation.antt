-- ===== src/Protocol/Invalidation.antt =====
-- fs-protocol/src/invalidation.rs: what a server tells the caches, and when it is well formed. The
-- kind is the number on the wire.
use fabric_fs.Prelude.{
  ℕ, ◌≡◌, refl, List, String, ◌==◌, ◌===◌, if◌then◌else◌, string_eq, is_empty, Result, ok, err,
  ◌>>=◌, ◌>>◌, arith, bytes_eq,
}
use fabric_fs.Protocol.Error.{ProtocolError, unknown_invalidation_kind, invalid_envelope}
use fabric_fs.Protocol.Path.{
  validate_path_value, validate_rename_paths, validate_required_invalidation_path,
  validate_required_non_root_invalidation_path,
}

pub data InvalidationKind : Type 0 where
  create modify delete rename metadata xattr full_resync : InvalidationKind

pub record Invalidation : Type 0 where
  pub namespace : String
  pub sequence : ℕ
  pub kind : ℕ
  pub path : List ℕ
  pub old_path : List ℕ
  pub new_path : List ℕ
  pub inode : ℕ
  pub handle : ℕ
  pub request_id : String

unfoldable pub wire_value : InvalidationKind → ℕ
wire_value create = 1
wire_value modify = 2
wire_value delete = 3
wire_value rename = 4
wire_value metadata = 5
wire_value xattr = 6
wire_value full_resync = 7

unfoldable pub try_from : ℕ → Result ProtocolError InvalidationKind
try_from value =
    if value == 1
    then ok create
    else if value == 2
    then ok modify
    else if value == 3
    then ok delete
    else if value == 4
    then ok rename
    else if value == 5
    then ok metadata
    else if value == 6
    then ok xattr
    else if value == 7
    then ok full_resync
    else err (unknown_invalidation_kind value)

unfoldable pub validate_kind_paths :
    InvalidationKind → Invalidation → Result ProtocolError (Unit {0})
validate_kind_paths create v = validate_required_non_root_invalidation_path "path" v.path
validate_kind_paths delete v = validate_required_non_root_invalidation_path "path" v.path
validate_kind_paths modify v = validate_required_invalidation_path "path" v.path
validate_kind_paths metadata v = validate_required_invalidation_path "path" v.path
validate_kind_paths xattr v = validate_required_invalidation_path "path" v.path
validate_kind_paths rename v =
    validate_required_non_root_invalidation_path "old_path" v.old_path
    >> validate_required_non_root_invalidation_path "new_path" v.new_path
    >> validate_rename_paths v.old_path v.new_path
validate_kind_paths full_resync v = ok tt

abbrev validate_if_present : List ℕ → Result ProtocolError (Unit {0})
validate_if_present path = if is_empty path then ok tt else validate_path_value path

unfoldable pub validate_invalidation : Invalidation → Result ProtocolError (Unit {0})
validate_invalidation v =
    if v.namespace === ""
    then err (invalid_envelope "invalidation namespace must not be empty")
    else do
      kind ← try_from v.kind
      validate_kind_paths kind v
      validate_if_present v.path
      validate_if_present v.old_path
      validate_if_present v.new_path

-- A kind is read back from the wire.
pub try_from-wire_value : (kind : InvalidationKind) → try_from (wire_value kind) ≡ ok kind
unfolding try_from wire_value
try_from-wire_value create = refl
try_from-wire_value _ = refl

-- A number that is read as a kind is that kind's number.
pub wire_value-try_from :
    (value : ℕ) (kind : InvalidationKind) → try_from value ≡ ok kind → wire_value kind ≡ value
unfolding try_from wire_value
wire_value-try_from value kind h = ground arith

pub valid-kind :
    (v : Invalidation)
    → validate_invalidation v ≡ ok tt
    → (kind : InvalidationKind) × (try_from v.kind ≡ ok kind) × (validate_kind_paths kind v ≡ ok tt)
unfolding validate_invalidation
valid-kind v h = go (try_from v.kind) refl
  where
    go :
        (r : Result ProtocolError InvalidationKind)
        → try_from v.kind ≡ r
        → (kind : InvalidationKind) × (try_from v.kind ≡ ok kind)
          × (validate_kind_paths kind v ≡ ok tt)
    go (ok kind) e = (kind, e, ground arith)
    go (err x) e = absurd (ground arith)
