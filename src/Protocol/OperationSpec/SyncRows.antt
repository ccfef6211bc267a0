-- ===== src/Protocol/OperationSpec/SyncRows.antt =====
-- fs-protocol/src/operation_spec.rs: the rows of the operation table, `flush` to `lseek`.
use fabric_fs.Prelude.{List, [], ◌∷◌}
use fabric_fs.Protocol.Operation.{Operation}
use fabric_fs.Protocol.OperationSpec.Types.{
  OperationSpec, flush_request, empty_response, durability, no_limit, no_handle, fsync_request,
  fsyncdir_request, getlk_request, getlk_response, read_only, setlk_request, lock_state,
  flock_request, copy_file_range_request, copy_file_range_response, content_mutation,
  requested_copy_length, fallocate_request, lseek_request, lseek_response, seek_state,
}
use fabric_fs.Protocol.OperationSpec.PathRoles.{copy_file_range_paths, target_any}

unfoldable pub sync_rows : List OperationSpec
sync_rows =
    record {
      operation = Operation.flush;
      wire_value = 22;
      subject_token = "flush";
      request_shape = flush_request;
      response_shape = empty_response;
      path_roles = target_any;
      effect = durability;
      response_limit = no_limit;
      response_handle = no_handle;
    }
    ∷ record {
      operation = Operation.fsync;
      wire_value = 23;
      subject_token = "fsync";
      request_shape = fsync_request;
      response_shape = empty_response;
      path_roles = target_any;
      effect = durability;
      response_limit = no_limit;
      response_handle = no_handle;
    }
    ∷ record {
      operation = Operation.fsyncdir;
      wire_value = 24;
      subject_token = "fsyncdir";
      request_shape = fsyncdir_request;
      response_shape = empty_response;
      path_roles = target_any;
      effect = durability;
      response_limit = no_limit;
      response_handle = no_handle;
    }
    ∷ record {
      operation = Operation.getlk;
      wire_value = 25;
      subject_token = "getlk";
      request_shape = getlk_request;
      response_shape = getlk_response;
      path_roles = target_any;
      effect = read_only;
      response_limit = no_limit;
      response_handle = no_handle;
    }
    ∷ record {
      operation = Operation.setlk;
      wire_value = 26;
      subject_token = "setlk";
      request_shape = setlk_request;
      response_shape = empty_response;
      path_roles = target_any;
      effect = lock_state;
      response_limit = no_limit;
      response_handle = no_handle;
    }
    ∷ record {
      operation = Operation.flock;
      wire_value = 27;
      subject_token = "flock";
      request_shape = flock_request;
      response_shape = empty_response;
      path_roles = target_any;
      effect = lock_state;
      response_limit = no_limit;
      response_handle = no_handle;
    }
    ∷ record {
      operation = Operation.copy_file_range;
      wire_value = 28;
      subject_token = "copy_file_range";
      request_shape = copy_file_range_request;
      response_shape = copy_file_range_response;
      path_roles = copy_file_range_paths;
      effect = content_mutation;
      response_limit = requested_copy_length;
      response_handle = no_handle;
    }
    ∷ record {
      operation = Operation.fallocate;
      wire_value = 29;
      subject_token = "fallocate";
      request_shape = fallocate_request;
      response_shape = empty_response;
      path_roles = target_any;
      effect = content_mutation;
      response_limit = no_limit;
      response_handle = no_handle;
    }
    ∷ record {
      operation = Operation.lseek;
      wire_value = 30;
      subject_token = "lseek";
      request_shape = lseek_request;
      response_shape = lseek_response;
      path_roles = target_any;
      effect = seek_state;
      response_limit = no_limit;
      response_handle = no_handle;
    }
    ∷ []
