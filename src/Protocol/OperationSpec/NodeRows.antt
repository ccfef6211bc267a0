-- ===== src/Protocol/OperationSpec/NodeRows.antt =====
-- fs-protocol/src/operation_spec.rs: the rows of the operation table, `lookup` to `rmdir`.
use fabric_fs.Prelude.{List, [], ◌∷◌}
use fabric_fs.Protocol.Operation.{Operation}
use fabric_fs.Protocol.OperationSpec.Types.{
  OperationSpec, lookup_request, lookup_response, read_only, no_limit, no_handle, getattr_request,
  getattr_response, readdir_request, readdir_response, requested_directory_entries, open_request,
  open_response, handle_lifecycle, opened_object, read_request, read_response, requested_read_bytes,
  write_request, write_response, content_mutation, request_write_bytes, create_request,
  create_response, create_node, rename_request, empty_response, rename_node, unlink_request,
  delete_node, mkdir_request, rmdir_request,
}
use fabric_fs.Protocol.OperationSpec.PathRoles.{rename_paths, target_any, target_non_root}

unfoldable pub node_rows : List OperationSpec
node_rows =
    record {
      operation = Operation.lookup;
      wire_value = 1;
      subject_token = "lookup";
      request_shape = lookup_request;
      response_shape = lookup_response;
      path_roles = target_any;
      effect = read_only;
      response_limit = no_limit;
      response_handle = no_handle;
    }
    ∷ record {
      operation = Operation.getattr;
      wire_value = 2;
      subject_token = "getattr";
      request_shape = getattr_request;
      response_shape = getattr_response;
      path_roles = target_any;
      effect = read_only;
      response_limit = no_limit;
      response_handle = no_handle;
    }
    ∷ record {
      operation = Operation.readdir;
      wire_value = 3;
      subject_token = "readdir";
      request_shape = readdir_request;
      response_shape = readdir_response;
      path_roles = target_any;
      effect = read_only;
      response_limit = requested_directory_entries;
      response_handle = no_handle;
    }
    ∷ record {
      operation = Operation.«open»;
      wire_value = 4;
      subject_token = "open";
      request_shape = open_request;
      response_shape = open_response;
      path_roles = target_any;
      effect = handle_lifecycle;
      response_limit = no_limit;
      response_handle = opened_object;
    }
    ∷ record {
      operation = Operation.read;
      wire_value = 5;
      subject_token = "read";
      request_shape = read_request;
      response_shape = read_response;
      path_roles = target_any;
      effect = read_only;
      response_limit = requested_read_bytes;
      response_handle = no_handle;
    }
    ∷ record {
      operation = Operation.write;
      wire_value = 6;
      subject_token = "write";
      request_shape = write_request;
      response_shape = write_response;
      path_roles = target_any;
      effect = content_mutation;
      response_limit = request_write_bytes;
      response_handle = no_handle;
    }
    ∷ record {
      operation = Operation.create;
      wire_value = 7;
      subject_token = "create";
      request_shape = create_request;
      response_shape = create_response;
      path_roles = target_non_root;
      effect = create_node;
      response_limit = no_limit;
      response_handle = opened_object;
    }
    ∷ record {
      operation = Operation.rename;
      wire_value = 8;
      subject_token = "rename";
      request_shape = rename_request;
      response_shape = empty_response;
      path_roles = rename_paths;
      effect = rename_node;
      response_limit = no_limit;
      response_handle = no_handle;
    }
    ∷ record {
      operation = Operation.unlink;
      wire_value = 9;
      subject_token = "unlink";
      request_shape = unlink_request;
      response_shape = empty_response;
      path_roles = target_non_root;
      effect = delete_node;
      response_limit = no_limit;
      response_handle = no_handle;
    }
    ∷ record {
      operation = Operation.mkdir;
      wire_value = 10;
      subject_token = "mkdir";
      request_shape = mkdir_request;
      response_shape = lookup_response;
      path_roles = target_non_root;
      effect = create_node;
      response_limit = no_limit;
      response_handle = no_handle;
    }
    ∷ record {
      operation = Operation.rmdir;
      wire_value = 11;
      subject_token = "rmdir";
      request_shape = rmdir_request;
      response_shape = empty_response;
      path_roles = target_non_root;
      effect = delete_node;
      response_limit = no_limit;
      response_handle = no_handle;
    }
    ∷ []
