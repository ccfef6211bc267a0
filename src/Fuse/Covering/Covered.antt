-- ===== src/Fuse/Covering/Covered.antt =====
-- fs-core/src/lib.rs and fs-fuse/src/cache.rs: what the dispatcher sends is what the cache requires.
use fabric_fs.Prelude.{
  ℕ, ◌≡◌, refl, sym, ap, ◌∙◌, Bool, true, false, Option, none, some, map_option, List, [], ◌∷◌,
  ==_iff, eq-===, string_eq, bytes_eq, any, if◌then◌else◌, Result, ok, err, arith, get_elem?,
}
use mathlib.Core.Option
use mathlib.Core.Path.{subst}
use fabric_fs.Protocol.Operation.{discriminant}
use fabric_fs.Protocol.OperationSpec.NodeRows.{node_rows}
use fabric_fs.Protocol.OperationSpec.AttributeRows.{attribute_rows}
use fabric_fs.Protocol.OperationSpec.SyncRows.{sync_rows}
use fabric_fs.Protocol.OperationSpec.Table.{operation_specs, spec_for, effect_of, primary_path_role}
use fabric_fs.Protocol.OperationSpec.PathRoles.{
  target_any, target_non_root, rename_paths, hardlink_paths, copy_file_range_paths,
}
use fabric_fs.Protocol.Invalidation.{
  Invalidation, InvalidationKind, wire_value, try_from, try_from-wire_value,
}
use fabric_fs.Protocol.RequestPayload.{
  RequestPayload, operation, primary_path, path_for_role, path_dto_for_role,
}
use fabric_fs.Protocol.ResponsePayload.{ResponsePayload, created_inode}
use fabric_fs.Core.Invalidating.{
  has_truncate, truncates, kind_for_effect, invalidation_kind_for_request, path_or_empty, or_zero,
  with_rename_paths,
}
use fabric_fs.Protocol.RequestEnvelope.{RequestEnvelope}
use fabric_fs.Core.Invalidating.Counting.{with_rename_paths-keeps}
use fabric_fs.Core.Invalidating.{
  Sequences, next_invalidation_sequence, full_resync_invalidation_at, invalidation_at,
  invalidation_or_resync, invalidations_for_kind, invalidations_for_success,
}
use fabric_fs.Fuse.Covering.{
  matches, RequiredPathInvalidation, created, deleted, renamed, updated, map_both,
  invalidation_kind_for_effect, required_for_effect, for_request_and_response, matches_kind,
}

updated-matches :
    (path : List ℕ) (kind : InvalidationKind) (v : Invalidation)
    → v.path ≡ path
    → matches_kind (updated path kind) v kind ≡ true
unfolding matches_kind wire_value
updated-matches path InvalidationKind.create v e = eq-=== v.path path e
updated-matches path InvalidationKind.full_resync v e = refl
updated-matches path _ v e = eq-=== v.path path e

update-covers :
    (path : Option (List ℕ)) (kind : InvalidationKind) (v : Invalidation)
    (required : RequiredPathInvalidation)
    → map_option (λ p. updated p kind) path ≡ some required
    → v.path ≡ path_or_empty path
    → matches_kind required v kind ≡ true
unfolding matches_kind
update-covers none kind v required h e = cc
update-covers (some path) kind v required h e =
    rw (sym (Option.some-injective _ _ h)) (updated-matches path kind v e)

delete-covers :
    (path : Option (List ℕ)) (v : Invalidation) (required : RequiredPathInvalidation)
    → map_option deleted path ≡ some required
    → v.path ≡ path_or_empty path
    → matches_kind required v InvalidationKind.delete ≡ true
unfolding matches_kind
delete-covers none v required h e = cc
delete-covers (some path) v required h e =
    rw (sym (Option.some-injective _ _ h)) (eq-=== v.path path e)

create-covers :
    (path : Option (List ℕ)) (inode : Option ℕ) (v : Invalidation)
    (required : RequiredPathInvalidation)
    → map_both created path inode ≡ some required
    → v.path ≡ path_or_empty path
    → v.inode ≡ or_zero inode
    → matches_kind required v InvalidationKind.create ≡ true
unfolding matches_kind
create-covers none inode v required h e i = cc
create-covers (some path) none v required h e i = cc
create-covers (some path) (some inode) v required h e i =
    rw (sym (Option.some-injective _ _ h), eq-=== v.path path e, (==_iff v.inode inode).1 i)

rename-covers :
    (old_path new_path : Option (List ℕ)) (v : Invalidation) (required : RequiredPathInvalidation)
    → map_both renamed old_path new_path ≡ some required
    → v.old_path ≡ path_or_empty old_path
    → v.new_path ≡ path_or_empty new_path
    → matches_kind required v InvalidationKind.rename ≡ true
unfolding matches_kind
rename-covers none new_path v required h e i = cc
rename-covers (some path) none v required h e i = cc
rename-covers (some old) (some new) v required h e i =
    rw (sym (Option.some-injective _ _ h), eq-=== v.old_path old e, eq-=== v.new_path new i)

open-covers :
    (truncated : Bool) (path : Option (List ℕ)) (v : Invalidation)
    (required : RequiredPathInvalidation)
    → (if truncated then map_option (λ p. updated p InvalidationKind.modify) path else none)
      ≡ some required
    → v.path ≡ path_or_empty path
    → (kind : InvalidationKind) × ((if truncated then some InvalidationKind.modify else none)
        ≡ some kind)
      × (matches_kind required v kind ≡ true)
open-covers true path v required h e =
    (InvalidationKind.modify, refl, update-covers path InvalidationKind.modify v required h e)
open-covers false path v required h e = cc

-- The invalidation that the dispatcher makes for a request and its payload is the one that the cache
-- requires of them.
pub made-covers :
    (p : RequestPayload) (payload : ResponsePayload) (v : Invalidation)
    (required : RequiredPathInvalidation)
    → for_request_and_response p payload ≡ some required
    → v.path ≡ path_or_empty (primary_path p)
    → v.inode ≡ or_zero (created_inode payload)
    → (kind : InvalidationKind) × (invalidation_kind_for_request p ≡ some kind)
      × (matches_kind required (with_rename_paths p v) kind ≡ true)
unfolding for_request_and_response required_for_effect invalidation_kind_for_effect
    invalidation_kind_for_request truncates kind_for_effect effect_of spec_for operation_specs
    node_rows attribute_rows sync_rows discriminant get_elem? primary_path primary_path_role
    path_for_role path_dto_for_role operation with_rename_paths target_any target_non_root
    rename_paths hardlink_paths copy_file_range_paths
made-covers (RequestPayload.create r) payload v required h e i =
    (InvalidationKind.create, refl, create-covers r.path (created_inode payload) v required h e i)
made-covers (RequestPayload.mkdir r) payload v required h e i =
    (InvalidationKind.create, refl, create-covers r.path (created_inode payload) v required h e i)
made-covers (RequestPayload.symlink r) payload v required h e i =
    (InvalidationKind.create, refl, create-covers r.path (created_inode payload) v required h e i)
made-covers (RequestPayload.hardlink r) payload v required h e i = (
  InvalidationKind.create,
  refl,
  create-covers r.new_path (created_inode payload) v required h e i,
)
made-covers (RequestPayload.unlink r) payload v required h e i =
    (InvalidationKind.delete, refl, delete-covers r.path v required h e)
made-covers (RequestPayload.rmdir r) payload v required h e i =
    (InvalidationKind.delete, refl, delete-covers r.path v required h e)
made-covers (RequestPayload.rename r) payload v required h e i =
    (InvalidationKind.rename, refl, rename-covers r.old_path r.new_path _ required h refl refl)
made-covers (RequestPayload.write r) payload v required h e i =
    (InvalidationKind.modify, refl, update-covers r.path InvalidationKind.modify v required h e)
made-covers (RequestPayload.fallocate r) payload v required h e i =
    (InvalidationKind.modify, refl, update-covers r.path InvalidationKind.modify v required h e)
made-covers (RequestPayload.copy_file_range r) payload v required h e i = (
  InvalidationKind.modify,
  refl,
  update-covers r.output_path InvalidationKind.modify v required h e,
)
made-covers (RequestPayload.setattr r) payload v required h e i =
    (InvalidationKind.metadata, refl, update-covers r.path InvalidationKind.metadata v required h e)
made-covers (RequestPayload.setxattr r) payload v required h e i =
    (InvalidationKind.xattr, refl, update-covers r.path InvalidationKind.xattr v required h e)
made-covers (RequestPayload.removexattr r) payload v required h e i =
    (InvalidationKind.xattr, refl, update-covers r.path InvalidationKind.xattr v required h e)
made-covers (RequestPayload.«open» r) payload v required h e i =
    open-covers (has_truncate r.flags) r.path v required h e
made-covers (RequestPayload.lookup r) payload v required h e i = cc
made-covers _ payload v required h e i = cc

-- A full resync of the request covers whatever is required.
resync-covers :
    (required : RequiredPathInvalidation) (v : Invalidation)
    → matches_kind required v InvalidationKind.full_resync ≡ true
unfolding matches_kind
resync-covers (created path inode) v = refl
resync-covers _ v = refl

with_rename_paths-kind :
    (p : RequestPayload) (v : Invalidation) → (with_rename_paths p v).kind ≡ v.kind
unfolding with_rename_paths
with_rename_paths-kind (RequestPayload.rename r) v = refl
with_rename_paths-kind (RequestPayload.lookup r) v = refl
with_rename_paths-kind _ v = refl

module _ (request : RequestEnvelope) (required : RequiredPathInvalidation) where
  matches-own :
      (v : Invalidation) (kind : InvalidationKind)
      → v.namespace ≡ request.namespace
      → v.request_id ≡ request.request_id
      → v.kind ≡ wire_value kind
      → matches_kind required v kind ≡ true
      → any (matches required request) (v ∷ []) ≡ true
  unfolding any matches
  matches-own v kind ns id k m =
      let read : try_from v.kind ≡ ok kind = ap try_from k ∙ try_from-wire_value kind in
      rw (
        eq-=== v.namespace request.namespace ns,
        eq-=== v.request_id request.request_id id,
        read,
        m,
      )

  -- The invalidation before a rename puts its paths in.
  abbrev plain : ResponsePayload → InvalidationKind → ℕ → Invalidation
  plain payload kind sequence = record {
    namespace = request.namespace;
    sequence = sequence;
    kind = wire_value kind;
    path = path_or_empty (primary_path request.payload);
    old_path = [];
    new_path = [];
    inode = or_zero (created_inode payload);
    handle = 0;
    request_id = request.request_id;
  }

  invalidation_at-covers :
      (payload : ResponsePayload) (kind : InvalidationKind) (sequence : ℕ)
      → for_request_and_response request.payload payload ≡ some required
      → invalidation_kind_for_request request.payload ≡ some kind
      → any (matches required request) (invalidation_at request payload kind sequence ∷ []) ≡ true
  unfolding invalidation_at
  invalidation_at-covers payload kind sequence h k =
      let (kind', known, m) =
        made-covers request.payload payload (plain payload kind sequence) required h refl refl in
      let (ns, id, number) =
        with_rename_paths-keeps request.payload (plain payload kind sequence) in
      let same : kind' ≡ kind = Option.some-injective _ _ (sym known ∙ k) in
      matches-own _ kind ns id
        (with_rename_paths-kind request.payload (plain payload kind sequence))
        (subst
          (λ x.
            matches_kind required (with_rename_paths request.payload (plain payload kind sequence))
              x
            ≡ true)
          same m)

  -- A success that the cache requires an invalidation of carries one that covers it.
  pub invalidations-cover :
      (sequences : Sequences) (payload : ResponsePayload)
      → for_request_and_response request.payload payload ≡ some required
      → any (matches required request) (invalidations_for_success sequences request payload).1
        ≡ true
  unfolding invalidations_for_success invalidations_for_kind full_resync_invalidation_at
  invalidations-cover sequences payload h =
      for_kind (invalidation_kind_for_request request.payload) refl
    where
      for_number :
          (kind : InvalidationKind)
          → invalidation_kind_for_request request.payload ≡ some kind
          → (r : Sequences × Result (Unit {0}) ℕ)
          → any (matches required request) (invalidation_or_resync request payload kind r).1 ≡ true
      for_number kind k (after, ok sequence) = invalidation_at-covers payload kind sequence h k
      for_number kind k (after, err _) =
          matches-own _ InvalidationKind.full_resync refl refl refl (resync-covers required _)

      for_kind :
          (o : Option InvalidationKind)
          → invalidation_kind_for_request request.payload ≡ o
          → any (matches required request) (invalidations_for_kind sequences request payload o).1
            ≡ true
      for_kind none k =
          let (kind, known, m) =
            made-covers request.payload payload (plain payload InvalidationKind.modify 0) required h
              refl refl in
          absurd (ground (arith, sym k ∙ known))
      for_kind (some kind) k =
          for_number kind k (next_invalidation_sequence sequences request.namespace)
