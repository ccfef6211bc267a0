-- ===== src/Protocol/OperationSpec/AttributeRows.antt =====
-- fs-protocol/src/operation_spec.rs: the rows of the operation table, `statfs` to `setattr`.
use fabric_fs.Prelude.{List, [], ◌∷◌}
use fabric_fs.Protocol.Operation.{Operation}
use fabric_fs.Protocol.OperationSpec.Types.{
  OperationSpec, statfs_request, statfs_response, read_only, no_limit, no_handle, getxattr_request,
  getxattr_response, requested_xattr_bytes, setxattr_request, empty_response, xattr_mutation,
  listxattr_request, listxattr_response, requested_listxattr_bytes, removexattr_request,
  release_request, handle_lifecycle, readlink_request, readlink_response, symlink_request,
  symlink_response, create_node, hardlink_request, hardlink_response, setattr_request,
  setattr_response, metadata_mutation,
}
use fabric_fs.Protocol.OperationSpec.PathRoles.{hardlink_paths, target_any, target_non_root}

unfoldable pub attribute_rows : List OperationSpec
attribute_rows =
    record {
      operation = Operation.statfs;
      wire_value = 12;
      subject_token = "statfs";
      request_shape = statfs_request;
      response_shape = statfs_response;
      path_roles = target_any;
      effect = read_only;
      response_limit = no_limit;
      response_handle = no_handle;
    }
    ∷ record {
      operation = Operation.getxattr;
      wire_value = 13;
      subject_token = "getxattr";
      request_shape = getxattr_request;
      response_shape = getxattr_response;
      path_roles = target_any;
      effect = read_only;
      response_limit = requested_xattr_bytes;
      response_handle = no_handle;
    }
    ∷ record {
      operation = Operation.setxattr;
      wire_value = 14;
      subject_token = "setxattr";
      request_shape = setxattr_request;
      response_shape = empty_response;
      path_roles = target_any;
      effect = xattr_mutation;
      response_limit = no_limit;
      response_handle = no_handle;
    }
    ∷ record {
      operation = Operation.listxattr;
      wire_value = 15;
      subject_token = "listxattr";
      request_shape = listxattr_request;
      response_shape = listxattr_response;
      path_roles = target_any;
      effect = read_only;
      response_limit = requested_listxattr_bytes;
      response_handle = no_handle;
    }
    ∷ record {
      operation = Operation.removexattr;
      wire_value = 16;
      subject_token = "removexattr";
      request_shape = removexattr_request;
      response_shape = empty_response;
      path_roles = target_any;
      effect = xattr_mutation;
      response_limit = no_limit;
      response_handle = no_handle;
    }
    ∷ record {
      operation = Operation.release;
      wire_value = 17;
      subject_token = "release";
      request_shape = release_request;
      response_shape = empty_response;
      path_roles = target_any;
      effect = handle_lifecycle;
      response_limit = no_limit;
      response_handle = no_handle;
    }
    ∷ record {
      operation = Operation.readlink;
      wire_value = 18;
      subject_token = "readlink";
      request_shape = readlink_request;
      response_shape = readlink_response;
      path_roles = target_any;
      effect = read_only;
      response_limit = no_limit;
      response_handle = no_handle;
    }
    ∷ record {
      operation = Operation.symlink;
      wire_value = 19;
      subject_token = "symlink";
      request_shape = symlink_request;
      response_shape = symlink_response;
      path_roles = target_non_root;
      effect = create_node;
      response_limit = no_limit;
      response_handle = no_handle;
    }
    ∷ record {
      operation = Operation.hardlink;
      wire_value = 20;
      subject_token = "hardlink";
      request_shape = hardlink_request;
      response_shape = hardlink_response;
      path_roles = hardlink_paths;
      effect = create_node;
      response_limit = no_limit;
      response_handle = no_handle;
    }
    ∷ record {
      operation = Operation.setattr;
      wire_value = 21;
      subject_token = "setattr";
      request_shape = setattr_request;
      response_shape = setattr_response;
      path_roles = target_any;
      effect = metadata_mutation;
      response_limit = no_limit;
      response_handle = no_handle;
    }
    ∷ []
