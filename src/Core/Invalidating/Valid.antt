-- ===== src/Core/Invalidating/Valid.antt =====
-- fs-core/src/lib.rs, `invalidations_for_success`: what it makes for a valid request is well formed.
use fabric_fs.Prelude.{
  ℕ, ◌≡◌, ap, ◌∙◌, Bool, true, false, Option, none, some, List, [], ◌===◌, string_eq, bytes_eq,
  is_empty, ok, arith,
}
use fabric_fs.Protocol.Path.{
  root, validate_path_value, validate_non_root_path_value, validate_rename_paths,
  validate_path_field, validate_non_root_path_field, required_path_value,
  validate_required_invalidation_path, validate_required_non_root_invalidation_path,
}
use fabric_fs.Protocol.Invalidation.{
  Invalidation, InvalidationKind, wire_value, try_from, try_from-wire_value, validate_kind_paths,
  validate_invalidation,
}
use fabric_fs.Core.Invalidating.{path_or_empty}

path_value-full : (path : List ℕ) → validate_path_value path ≡ ok tt → is_empty path ≡ false
unfolding validate_path_value
path_value-full path h = ground arith

-- The kinds whose path may be the root.
abbrev pub is_update : InvalidationKind → Bool
is_update InvalidationKind.modify = true
is_update InvalidationKind.metadata = true
is_update InvalidationKind.xattr = true
is_update _ = false

abbrev pub is_node_change : InvalidationKind → Bool
is_node_change InvalidationKind.create = true
is_node_change InvalidationKind.delete = true
is_node_change _ = false

-- An invalidation that names one path.
abbrev pub NamesPath : Invalidation → InvalidationKind → Option (List ℕ) → Type 0
NamesPath v kind path =
    ((v.namespace === "") ≡ false)
    × (v.kind ≡ wire_value kind)
    × (v.path ≡ path_or_empty path)
    × (v.old_path ≡ [])
    × (v.new_path ≡ [])

update-kind_paths :
    (kind : InvalidationKind) (v : Invalidation)
    → is_update kind ≡ true
    → validate_path_value v.path ≡ ok tt
    → validate_kind_paths kind v ≡ ok tt
unfolding validate_kind_paths validate_required_invalidation_path
update-kind_paths InvalidationKind.modify v u h = rw (path_value-full v.path h, h)
update-kind_paths InvalidationKind.metadata v u h = rw (path_value-full v.path h, h)
update-kind_paths InvalidationKind.xattr v u h = rw (path_value-full v.path h, h)
update-kind_paths _ v u h = cc

node-kind_paths :
    (kind : InvalidationKind) (v : Invalidation)
    → is_node_change kind ≡ true
    → validate_path_value v.path ≡ ok tt
    → (v.path === root) ≡ false
    → validate_kind_paths kind v ≡ ok tt
unfolding validate_kind_paths validate_required_invalidation_path
    validate_required_non_root_invalidation_path
node-kind_paths InvalidationKind.create v u h g = rw (path_value-full v.path h, h, g)
node-kind_paths InvalidationKind.delete v u h g = rw (path_value-full v.path h, h, g)
node-kind_paths _ v u h g = cc

one_path-valid :
    (v : Invalidation) (kind : InvalidationKind)
    → (v.namespace === "") ≡ false
    → v.kind ≡ wire_value kind
    → validate_kind_paths kind v ≡ ok tt
    → validate_path_value v.path ≡ ok tt
    → v.old_path ≡ []
    → v.new_path ≡ []
    → validate_invalidation v ≡ ok tt
unfolding validate_invalidation
one_path-valid v kind named k paths path old_path new_path =
    let read : try_from v.kind ≡ ok kind = ap try_from k ∙ try_from-wire_value kind in
    rw (named, read, paths, path_value-full v.path path, path, old_path, new_path)

pub update-valid :
    (v : Invalidation) (kind : InvalidationKind) (path : Option (List ℕ))
    → NamesPath v kind path
    → is_update kind ≡ true
    → validate_path_field path ≡ ok tt
    → validate_invalidation v ≡ ok tt
unfolding validate_path_field
update-valid v kind none n u h = cc
update-valid v kind (some path) (named, k, at, old_path, new_path) u h =
    let here : validate_path_value v.path ≡ ok tt = rw at h in
    one_path-valid v kind named k (update-kind_paths kind v u here) here old_path new_path

pub node-valid :
    (v : Invalidation) (kind : InvalidationKind) (path : Option (List ℕ))
    → NamesPath v kind path
    → is_node_change kind ≡ true
    → validate_non_root_path_field path ≡ ok tt
    → validate_invalidation v ≡ ok tt
unfolding validate_non_root_path_field required_path_value validate_non_root_path_value
node-valid v kind none n u h = cc
node-valid v kind (some path) (named, k, at, old_path, new_path) u h =
    let here : validate_path_value v.path ≡ ok tt = rw at (ground arith) in
    let below : (v.path === root) ≡ false = rw at (ground arith) in
    one_path-valid v kind named k (node-kind_paths kind v u here below) here old_path new_path

pub rename-valid :
    (v : Invalidation)
    → (v.namespace === "") ≡ false
    → v.kind ≡ wire_value InvalidationKind.rename
    → v.path ≡ []
    → validate_rename_paths v.old_path v.new_path ≡ ok tt
    → validate_invalidation v ≡ ok tt
unfolding validate_invalidation validate_kind_paths validate_rename_paths
    validate_required_invalidation_path validate_required_non_root_invalidation_path
    validate_non_root_path_value
rename-valid v named k path h =
    let old : validate_path_value v.old_path ≡ ok tt = ground arith in
    let new : validate_path_value v.new_path ≡ ok tt = ground arith in
    let read : try_from v.kind ≡ ok InvalidationKind.rename =
      ap try_from k ∙ try_from-wire_value InvalidationKind.rename in
    rw (named, read, path) (ground (arith, path_value-full v.old_path, path_value-full v.new_path))
