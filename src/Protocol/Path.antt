-- ===== src/Protocol/Path.antt =====
-- fs-protocol/src/path.rs: the rules that a path of the protocol meets. A path is its bytes.
pub mod Prefix
pub mod Subtree
use Prim.Native.String.{String, ◌++◌ as text_append}
use fabric_fs.Prelude.{
  ℕ, ◌≡◌, Bool, true, false, ◌&&◌, ◌||◌, not, Option, none, some, List, [], ◌∷◌, ◌++◌, ◌==◌, ◌===◌,
  if◌then◌else◌, bytes, bytes_eq, any, is_empty, Result, ok, err, ◌>>=◌, ◌>>◌,
}
use fabric_fs.Protocol.Error.{ProtocolError, invalid_path, invalid_envelope}

abbrev pub slash : ℕ
slash = b'/'

abbrev pub root : List ℕ
root = slash ∷ []

-- str::split: the pieces between the separators, at least one.
abbrev pub cons_head : ℕ → List (List ℕ) → List (List ℕ)
cons_head c [] = (c ∷ []) ∷ []
cons_head c (piece ∷ pieces) = (c ∷ piece) ∷ pieces

unfoldable pub split : ℕ → List ℕ → List (List ℕ)
split sep [] = [] ∷ []
split sep (c ∷ s) = let rest = split sep s in if c == sep then [] ∷ rest else cons_head c rest

abbrev pub skip_one : List (List ℕ) → List (List ℕ)
skip_one [] = []
skip_one (piece ∷ pieces) = pieces

abbrev pub starts_with_slash : List ℕ → Bool
starts_with_slash [] = false
starts_with_slash (c ∷ s) = c == slash

-- str::strip_prefix
unfoldable pub strip_prefix : List ℕ → List ℕ → Option (List ℕ)
strip_prefix [] s = some s
strip_prefix (p ∷ ps) [] = none
strip_prefix (p ∷ ps) (c ∷ s) = if p == c then strip_prefix ps s else none

unfoldable pub contains_nul : List ℕ → Bool
unfolding any
contains_nul s = any (λ c. c == 0) s

abbrev pub bad_component : List ℕ → Bool
bad_component s = is_empty s || s === bytes "." || s === bytes ".."

unfoldable pub validate_path_value : List ℕ → Result ProtocolError (Unit {0})
validate_path_value value =
    if is_empty value || not (starts_with_slash value) || contains_nul value
    then err (invalid_path value)
    else if value === root
    then ok tt
    else if any bad_component (skip_one (split slash value))
    then err (invalid_path value)
    else ok tt

unfoldable pub validate_non_root_path_value : List ℕ → Result ProtocolError (Unit {0})
validate_non_root_path_value value =
    validate_path_value value
    >> (if value === root then err (invalid_envelope "operation path must not be root") else ok tt)

abbrev pub after_prefix : Option (List ℕ) → Bool
after_prefix none = false
after_prefix (some suffix) = starts_with_slash suffix

unfoldable pub path_is_in_subtree : List ℕ → List ℕ → Bool
path_is_in_subtree path root_path = path === root_path || after_prefix (strip_prefix root_path path)

unfoldable pub validate_rename_paths : List ℕ → List ℕ → Result ProtocolError (Unit {0})
validate_rename_paths old_path new_path =
    validate_non_root_path_value old_path
    >> validate_non_root_path_value new_path
    >> (if path_is_in_subtree old_path new_path || path_is_in_subtree new_path old_path
        then err (invalid_envelope "rename paths must be in disjoint subtrees")
        else ok tt)

unfoldable pub validate_required_invalidation_path :
    String → List ℕ → Result ProtocolError (Unit {0})
validate_required_invalidation_path field value =
    if is_empty value
    then err (invalid_envelope (text_append field " is required for invalidation kind"))
    else validate_path_value value

unfoldable pub validate_required_non_root_invalidation_path :
    String → List ℕ → Result ProtocolError (Unit {0})
validate_required_non_root_invalidation_path field value =
    validate_required_invalidation_path field value
    >> (if value === root
        then err (invalid_envelope (text_append field " must not be root for invalidation kind"))
        else ok tt)

unfoldable pub required_path_value : Option (List ℕ) → Result ProtocolError (List ℕ)
required_path_value (some value) = ok value
required_path_value none = err (invalid_envelope "missing path DTO")

unfoldable pub validate_path_field : Option (List ℕ) → Result ProtocolError (Unit {0})
validate_path_field (some value) = validate_path_value value
validate_path_field none = err (invalid_envelope "missing path DTO")

unfoldable pub validate_non_root_path_field : Option (List ℕ) → Result ProtocolError (Unit {0})
validate_non_root_path_field value = do
  path ← required_path_value value
  validate_non_root_path_value path
