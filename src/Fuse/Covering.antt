-- ===== src/Fuse/Covering.antt =====
-- fs-fuse/src/cache.rs: which invalidation a success must carry, and what the cache does without it.
pub mod Covered
use fabric_fs.Prelude.{
  ℕ, Bool, true, false, ◌&&◌, not, Option, none, some, map_option, List, [], ◌∷◌, String, ◌==◌,
  ◌===◌, bytes_eq, string_eq, any, if◌then◌else◌, Result, ok, err,
}
use fabric_fs.Protocol.Error.{ProtocolError}
use fabric_fs.Protocol.Invalidation.{Invalidation, InvalidationKind, try_from, wire_value}
use fabric_fs.Protocol.OperationSpec.Types.{
  OperationEffect, content_mutation, create_node, rename_node, delete_node, metadata_mutation,
  xattr_mutation, requires_path_invalidation, source, target,
}
use fabric_fs.Protocol.OperationSpec.Table.{effect_of}
use fabric_fs.Protocol.RequestPayload.{RequestPayload, operation, primary_path, path_for_role}
use fabric_fs.Protocol.ResponsePayload.{ResponsePayload, created_inode}
use fabric_fs.Protocol.RequestEnvelope.{RequestEnvelope}
use fabric_fs.Protocol.ResponseEnvelope.{ResponseEnvelope}
use fabric_fs.Core.Invalidating.{truncates}
use fabric_fs.Fuse.Cache.{FuseError, stale_cache}
use fabric_fs.Fuse.Kernel.{CacheKernel, poisoned_kernel}

pub data RequiredPathInvalidation : Type 0 where
  created : List ℕ → ℕ → RequiredPathInvalidation
  deleted : List ℕ → RequiredPathInvalidation
  renamed : List ℕ → List ℕ → RequiredPathInvalidation
  updated : List ℕ → InvalidationKind → RequiredPathInvalidation

abbrev pub is_open : RequestPayload → Bool
is_open (RequestPayload.«open» value) = true
is_open _ = false

unfoldable pub invalidation_kind_for_effect : OperationEffect → Option InvalidationKind
invalidation_kind_for_effect content_mutation = some InvalidationKind.modify
invalidation_kind_for_effect create_node = some InvalidationKind.create
invalidation_kind_for_effect rename_node = some InvalidationKind.rename
invalidation_kind_for_effect delete_node = some InvalidationKind.delete
invalidation_kind_for_effect metadata_mutation = some InvalidationKind.metadata
invalidation_kind_for_effect xattr_mutation = some InvalidationKind.xattr
invalidation_kind_for_effect _ = none

-- Two values that the source takes with `?`.
abbrev pub map_both : {A B C : Type 0} → (A → B → C) → Option A → Option B → Option C
map_both f (some a) (some b) = some (f a b)
map_both f (some a) none = none
map_both f none b = none

abbrev pub update_of : Option (List ℕ) → Option InvalidationKind → Option RequiredPathInvalidation
update_of path none = none
update_of path (some kind) = map_option (λ p. updated p kind) path

unfoldable pub required_for_effect :
    RequestPayload → ResponsePayload → OperationEffect → Option RequiredPathInvalidation
required_for_effect request response create_node =
    map_both created (primary_path request) (created_inode response)
required_for_effect request response delete_node = map_option deleted (primary_path request)
required_for_effect request response rename_node =
    map_both renamed (path_for_role request source) (path_for_role request target)
required_for_effect request response effect =
    update_of (primary_path request) (invalidation_kind_for_effect effect)

abbrev pub required_for_row :
    RequestPayload → ResponsePayload → Option OperationEffect → Option RequiredPathInvalidation
required_for_row request response none = none
required_for_row request response (some effect) = required_for_effect request response effect

unfoldable pub for_request_and_response :
    RequestPayload → ResponsePayload → Option RequiredPathInvalidation
for_request_and_response request response =
    if is_open request
    then (if truncates request
        then map_option (λ p. updated p InvalidationKind.modify) (primary_path request)
        else none)
    else required_for_row request response (effect_of (operation request))

abbrev pub same_kind : InvalidationKind → InvalidationKind → Bool
same_kind a b = wire_value a == wire_value b

unfoldable pub matches_kind : RequiredPathInvalidation → Invalidation → InvalidationKind → Bool
matches_kind required v InvalidationKind.full_resync = true
matches_kind (created path inode) v InvalidationKind.create = v.path === path && v.inode == inode
matches_kind (deleted path) v InvalidationKind.delete = v.path === path
matches_kind (renamed old_path new_path) v InvalidationKind.rename =
    v.old_path === old_path && v.new_path === new_path
matches_kind (updated path kind) v actual = same_kind actual kind && v.path === path
matches_kind _ v _ = false

abbrev pub matches_read :
    RequiredPathInvalidation → Invalidation → Result ProtocolError InvalidationKind → Bool
matches_read required v (ok kind) = matches_kind required v kind
matches_read required v (err _) = false

unfoldable pub matches : RequiredPathInvalidation → RequestEnvelope → Invalidation → Bool
matches required request v =
    (v.namespace === request.namespace && v.request_id === request.request_id)
    && matches_read required v (try_from v.kind)

unfoldable pub request_requires_path_invalidation : RequestPayload → Bool
request_requires_path_invalidation payload =
    if truncates payload then true else elim (effect_of (operation payload)) [
      | none ↦ false
      | some effect ↦ requires_path_invalidation effect
    ]

abbrev pub poison_unless : CacheKernel → Bool → CacheKernel × Result FuseError (Unit {0})
poison_unless k true = (k, ok tt)
poison_unless k false = (poisoned_kernel k, err stale_cache)

abbrev pub require_covering :
    CacheKernel
    → RequestEnvelope
    → List Invalidation
    → Option RequiredPathInvalidation
    → CacheKernel × Result FuseError (Unit {0})
require_covering k request invalidations none = (k, ok tt)
require_covering k request invalidations (some required) =
    poison_unless k (any (matches required request) invalidations)

abbrev pub require_covering_payload :
    CacheKernel
    → RequestEnvelope
    → List Invalidation
    → Option ResponsePayload
    → CacheKernel × Result FuseError (Unit {0})
require_covering_payload k request invalidations none = (k, ok tt)
require_covering_payload k request invalidations (some payload) =
    require_covering k request invalidations (for_request_and_response request.payload payload)

unfoldable pub require_covering_path_invalidation :
    CacheKernel → RequestEnvelope → ResponseEnvelope → CacheKernel × Result FuseError (Unit {0})
require_covering_path_invalidation k request response =
    require_covering_payload k request response.invalidations response.payload

unfoldable pub poison_after_uncertain_path_mutation :
    CacheKernel → RequestEnvelope → CacheKernel × Bool
poison_after_uncertain_path_mutation k request =
    if request_requires_path_invalidation request.payload
    then (poisoned_kernel k, true)
    else (k, false)
