-- ===== src/Protocol/OperationSpec/PathRoles.antt =====
-- fs-protocol/src/operation_spec.rs: the paths that a request of an operation has.
use fabric_fs.Prelude.{List, [], ◌∷◌}
use fabric_fs.Protocol.OperationSpec.Types.{PathRoleSpec, target, source, any_path, non_root}

unfoldable pub target_any : List PathRoleSpec
target_any = record { role = target; field_name = "path"; root = any_path } ∷ []

unfoldable pub target_non_root : List PathRoleSpec
target_non_root = record { role = target; field_name = "path"; root = non_root } ∷ []

unfoldable pub rename_paths : List PathRoleSpec
rename_paths =
    record { role = source; field_name = "old_path"; root = non_root }
    ∷ record { role = target; field_name = "new_path"; root = non_root }
    ∷ []

unfoldable pub hardlink_paths : List PathRoleSpec
hardlink_paths =
    record { role = target; field_name = "new_path"; root = non_root }
    ∷ record { role = source; field_name = "existing_path"; root = non_root }
    ∷ []

unfoldable pub copy_file_range_paths : List PathRoleSpec
copy_file_range_paths =
    record { role = target; field_name = "output_path"; root = any_path }
    ∷ record { role = source; field_name = "input_path"; root = any_path }
    ∷ []
