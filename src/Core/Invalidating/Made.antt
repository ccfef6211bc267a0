-- ===== src/Core/Invalidating/Made.antt =====
-- fs-core/src/lib.rs, `invalidations_for_success`: what it makes for a valid request is well formed.
use fabric_fs.Prelude.{
  ℕ, ◌≡◌, refl, ap, ◌∙◌, false, Option, none, some, List, [], ◌===◌, string_eq, ok, ◌>>=◌, arith,
  get_elem?,
}
use fabric_fs.Protocol.Operation.{discriminant}
use fabric_fs.Protocol.OperationSpec.NodeRows.{node_rows}
use fabric_fs.Protocol.OperationSpec.AttributeRows.{attribute_rows}
use fabric_fs.Protocol.OperationSpec.SyncRows.{sync_rows}
use fabric_fs.Protocol.OperationSpec.PathRoles.{
  target_any, target_non_root, rename_paths, hardlink_paths, copy_file_range_paths,
}
use fabric_fs.Protocol.OperationSpec.Table.{operation_specs, spec_for, effect_of, primary_path_role}
use fabric_fs.Protocol.Path.{
  validate_rename_paths, validate_non_root_path_field, required_path_value,
}
use fabric_fs.Protocol.Validation.{
  validate_open_request, validate_hardlink_request, validate_setattr_request,
  validate_copy_file_range_request, validate_fallocate_request,
}
use fabric_fs.Protocol.Invalidation.{
  Invalidation, InvalidationKind, wire_value, validate_invalidation,
}
use fabric_fs.Protocol.RequestPayload
use fabric_fs.Protocol.RequestPayload.{
  RequestPayload, operation, primary_path, path_for_role, path_dto_for_role,
}
use fabric_fs.Core.Invalidating.{
  truncates, kind_for_effect, invalidation_kind_for_request, path_or_empty, with_rename_paths,
}
use fabric_fs.Core.Invalidating.Valid.{NamesPath, update-valid, node-valid, rename-valid}

rename-made :
    (old_path new_path : Option (List ℕ)) (v : Invalidation)
    → (v.namespace === "") ≡ false
    → v.kind ≡ wire_value InvalidationKind.rename
    → (do
      old ← required_path_value old_path
      new ← required_path_value new_path
      validate_rename_paths old new)
      ≡ ok tt
    → validate_invalidation (record v {
      path = [];
      old_path = path_or_empty old_path;
      new_path = path_or_empty new_path;
    })
      ≡ ok tt
unfolding required_path_value
rename-made none new_path v named k h = cc
rename-made (some old) none v named k h = cc
rename-made (some old) (some new) v named k h = rename-valid _ named k refl h

-- For a valid request, an invalidation that has its namespace, its kind and its primary path, and a
-- rename both its paths, is well formed.
pub made-valid :
    (p : RequestPayload) (v : Invalidation) (kind : InvalidationKind)
    → RequestPayload.validate p ≡ ok tt
    → invalidation_kind_for_request p ≡ some kind
    → NamesPath v kind (primary_path p)
    → validate_invalidation (with_rename_paths p v) ≡ ok tt
unfolding invalidation_kind_for_request truncates kind_for_effect effect_of spec_for operation_specs
    node_rows attribute_rows sync_rows discriminant get_elem? primary_path primary_path_role
    path_for_role path_dto_for_role operation RequestPayload.validate with_rename_paths target_any
    target_non_root validate_hardlink_request validate_setattr_request
    validate_copy_file_range_request validate_fallocate_request validate_open_request
    validate_non_root_path_field rename_paths hardlink_paths copy_file_range_paths
    required_path_value
made-valid (RequestPayload.create r) v kind h k n = node-valid v kind r.path n (ground arith) h
made-valid (RequestPayload.mkdir r) v kind h k n = node-valid v kind r.path n (ground arith) h
made-valid (RequestPayload.symlink r) v kind h k n =
    node-valid v kind r.path n (ground arith) (ground arith)
made-valid (RequestPayload.hardlink r) v kind h k n =
    node-valid v kind r.new_path n (ground arith) (ground arith)
made-valid (RequestPayload.unlink r) v kind h k n = node-valid v kind r.path n (ground arith) h
made-valid (RequestPayload.rmdir r) v kind h k n = node-valid v kind r.path n (ground arith) h
made-valid (RequestPayload.write r) v kind h k n = update-valid v kind r.path n (ground arith) h
made-valid (RequestPayload.setattr r) v kind h k n =
    update-valid v kind r.path n (ground arith) (ground arith)
made-valid (RequestPayload.setxattr r) v kind h k n =
    update-valid v kind r.path n (ground arith) (ground arith)
made-valid (RequestPayload.removexattr r) v kind h k n =
    update-valid v kind r.path n (ground arith) (ground arith)
made-valid (RequestPayload.copy_file_range r) v kind h k n =
    update-valid v kind r.output_path n (ground arith) (ground arith)
made-valid (RequestPayload.fallocate r) v kind h k n =
    update-valid v kind r.path n (ground arith) (ground arith)
made-valid (RequestPayload.«open» r) v kind h k n =
    update-valid v kind r.path n (ground arith) (ground arith)
made-valid (RequestPayload.rename r) v kind h k n =
    rename-made r.old_path r.new_path v n.0 (n.1 ∙ ap wire_value (ground arith)) h
made-valid (RequestPayload.lookup r) v kind h k n = cc
made-valid _ v kind h k n = cc
