-- ===== src/Core/Example.antt =====
-- Concrete requests and a concrete service, for the runs of the dispatcher and of its clients.
use fabric_fs.Prelude.{ℕ, ◌+◌, some, List, ok, bytes, any, find, get_elem?}
use fabric_fs.Protocol.Path
use fabric_fs.Protocol.Invalidation
use fabric_fs.Protocol.Operation
use fabric_fs.Protocol.OperationSpec.NodeRows
use fabric_fs.Protocol.OperationSpec.AttributeRows
use fabric_fs.Protocol.OperationSpec.SyncRows
use fabric_fs.Protocol.OperationSpec.PathRoles
use fabric_fs.Protocol.OperationSpec.Types
use fabric_fs.Protocol.OperationSpec.Table
use fabric_fs.Protocol.Errno
use fabric_fs.Protocol.Validation
use fabric_fs.Protocol.RequestPayload
use fabric_fs.Protocol.ResponsePayload
use fabric_fs.Protocol.RequestEnvelope
use fabric_fs.Protocol.ResponseEnvelope
use fabric_fs.Core.Service
use fabric_fs.Core.Handling
use fabric_fs.Core.Invalidating
use fabric_fs.Core.Dispatcher
use fabric_fs.Prelude.Map
use fabric_fs.Protocol.Messages.{default_trace}
use fabric_fs.Protocol.RequestPayload.{RequestPayload}
use fabric_fs.Protocol.RequestEnvelope.{RequestEnvelope, new_envelope}
use fabric_fs.Core.Service.{RpcMetadata, FileSystemService, default_service, for_request}
use fabric_fs.Core.Invalidating.{no_sequences}
use fabric_fs.Core.Dispatcher.{Dispatcher, DispatcherState}

unfoldable pub program : Unit {0}
unfolding default_trace Path.split Path.strip_prefix Path.contains_nul Path.validate_path_value
    Path.validate_non_root_path_value Path.path_is_in_subtree Path.validate_rename_paths
    Path.validate_required_invalidation_path Path.validate_required_non_root_invalidation_path
    Path.required_path_value Path.validate_path_field Path.validate_non_root_path_field
    Invalidation.wire_value Invalidation.try_from Invalidation.validate_kind_paths
    Invalidation.validate_invalidation Operation.discriminant Operation.same_operation
    NodeRows.node_rows AttributeRows.attribute_rows SyncRows.sync_rows PathRoles.target_any
    PathRoles.target_non_root PathRoles.rename_paths PathRoles.hardlink_paths
    PathRoles.copy_file_range_paths Types.is_mutation Types.requires_path_invalidation
    Table.operation_specs Table.spec_for Table.operation_for_wire_value
    Table.operation_for_subject_token Table.wire_value_of Table.as_str Table.effect_of
    Table.operation_is_mutation Table.try_from_wire Table.primary_path_role Errno.wire_value
    Errno.is_error Errno.try_from Validation.validate_each Validation.validate_xattr_name
    Validation.validate_symlink_target Validation.parse_open_kind Validation.parse_file_kind
    Validation.validate_open_request Validation.validate_hardlink_request
    Validation.validate_setattr_request Validation.validate_lock_range Validation.validate_lock_type
    Validation.validate_flock_operation Validation.validate_file_lock
    Validation.validate_copy_file_range_request Validation.validate_fallocate_request
    Validation.validate_lseek_request Validation.validate_attr_field_kind
    Validation.validate_attr_field Validation.validate_non_directory_attr
    Validation.validate_file_kind Validation.validate_directory_entry
    Validation.listxattr_response_size RequestPayload.operation RequestPayload.path_dto_for_role
    RequestPayload.path_for_role RequestPayload.primary_path RequestPayload.validate
    ResponsePayload.operation ResponsePayload.created_inode ResponsePayload.opened_handle
    ResponsePayload.validate ResponsePayload.check_limit ResponsePayload.validate_for_request
    RequestEnvelope.validate_identity RequestEnvelope.validate RequestEnvelope.new
    RequestEnvelope.with_caller ResponseEnvelope.validate_success ResponseEnvelope.validate_state
    ResponseEnvelope.validate_identity_and_payload ResponseEnvelope.validate_payload_for_request
    ResponseEnvelope.validate ResponseEnvelope.validate_identity_and_payload_for_request
    ResponseEnvelope.validate_for_request ResponseEnvelope.response_request_id
    ResponseEnvelope.response_namespace ResponseEnvelope.as_error ResponseEnvelope.success_for
    ResponseEnvelope.failure_for Service.for_request Service.fs_error Service.unsupported
    Service.default_service Handling.check_payload Handling.check_limits Handling.call_handler
    Handling.protocol_error_to_fs_error Handling.validate_before_handler Invalidating.next_of
    Invalidating.next_invalidation_sequence Invalidating.truncates Invalidating.kind_for_effect
    Invalidating.invalidation_kind_for_request Invalidating.full_resync_invalidation_at
    Invalidating.full_resync_invalidation Invalidating.with_rename_paths
    Invalidating.invalidation_at Invalidating.invalidations_for_kind
    Invalidating.invalidations_for_success Dispatcher.with_authorizer Dispatcher.new
    Dispatcher.with_limits Dispatcher.answer_success Dispatcher.respond Dispatcher.dispatch
    Dispatcher.release_for_handle_response Dispatcher.abort_response_handles Dispatcher.rpc_errno
    Map.get Map.insert any find get_elem?
program = tt

abbrev pub one_directory : List ℕ
one_directory = bytes "/d"

-- A service that counts the directories it makes, opens the handle 7 and reads three bytes.
abbrev pub counting_service : FileSystemService ℕ
counting_service = record default_service {
  mkdir = λ s request metadata. (
    s + 1,
    ok (record {
      attr = some (record {
        inode = 5;
        size = 0;
        kind = 2;
        perm = 493;
        mtime_unix_nanos = 0;
        uid = 0;
        gid = 0;
        nlink = 2;
        atime_unix_nanos = 0;
        ctime_unix_nanos = 0;
        crtime_unix_nanos = 0;
      });
    }),
  );
  «open» = λ s request metadata. (s, ok (record { handle = 7; flags = 0 }));
  read = λ s request metadata. (s, ok (record { content = bytes "abc" }));
}

abbrev pub counting_dispatcher : Dispatcher ℕ
counting_dispatcher = Dispatcher.new counting_service (λ e. "bad")

abbrev pub at_start : DispatcherState ℕ
at_start = record { service_state = 0; sequences = no_sequences }

abbrev pub request_of : RequestPayload → RequestEnvelope
request_of payload = new_envelope "r1" "home" 0 default_trace payload

abbrev pub mkdir_request : RequestEnvelope
mkdir_request = request_of (RequestPayload.mkdir (record { path = some one_directory; mode = 493 }))

abbrev pub open_request : RequestEnvelope
open_request =
    request_of (RequestPayload.«open» (record { path = some one_directory; flags = 0; kind = 1 }))

abbrev pub read_request : RequestEnvelope
read_request =
    request_of (
      RequestPayload.read (record { path = some one_directory; handle = 7; offset = 0; size = 10 }))

abbrev pub metadata_of : RequestEnvelope → RpcMetadata
metadata_of request = for_request request 20 1
