-- ===== src/Protocol/Tests.antt =====
-- The theorems about paths, invalidations and the operation table at concrete values.
use fabric_fs.Protocol.RequestEnvelope
use fabric_fs.Protocol.RequestEnvelope.{RequestEnvelope}
use fabric_fs.Protocol.ResponseEnvelope.{ResponseEnvelope}
use fabric_fs.Protocol.Codec.Envelopes.{
  encode_request, decode_request, encode_response, decode_response,
}
use fabric_fs.Protocol.Codec.Envelopes.RoundTrip.{
  decode_request-encode_request, decode_request-valid, encode_request-total,
}
use fabric_fs.Protocol.Codec.Envelopes.Responses.{
  decode_response-encode_response, encode_response-total,
}
use fabric_fs.Protocol.Codec.Example.{Framed, kept_prost, kept_laws}
use fabric_fs.Core.Dispatcher.{dispatch}
use fabric_fs.Core.Dispatcher.Answering.{dispatch-valid}
use fabric_fs.Core.Example
use fabric_fs.Core.Example.{counting_dispatcher, at_start, mkdir_request, metadata_of}
use fabric_fs.Prelude.{ℕ, ◌≡◌, refl, true, false, some, List, bytes, ok, any, find, get_elem?}
use fabric_fs.Protocol.Path
use fabric_fs.Protocol.Path.{path_is_in_subtree, validate_rename_paths}
use fabric_fs.Protocol.Path.Subtree.{in_subtree_trans, rename-disjoint}
use fabric_fs.Protocol.Invalidation.{InvalidationKind, wire_value, try_from, try_from-wire_value}
use fabric_fs.Protocol.Operation.{Operation, discriminant}
use fabric_fs.Protocol.OperationSpec.Types.{OperationSpec}
use fabric_fs.Protocol.OperationSpec.NodeRows.{node_rows}
use fabric_fs.Protocol.OperationSpec.AttributeRows.{attribute_rows}
use fabric_fs.Protocol.OperationSpec.SyncRows.{sync_rows}
use fabric_fs.Protocol.OperationSpec.Table.{
  operation_specs, spec_for, operation_for_wire_value, operation_for_subject_token, wire_value_of,
  as_str, try_from_wire, spec_for-round_trip,
}

program : Unit {0}
unfolding any find get_elem? Path.split Path.strip_prefix Path.contains_nul Path.validate_path_value
    Path.validate_non_root_path_value path_is_in_subtree validate_rename_paths wire_value try_from
    discriminant node_rows attribute_rows sync_rows operation_specs spec_for
    operation_for_wire_value operation_for_subject_token wire_value_of as_str try_from_wire
program = tt

abbrev directory : List ℕ
directory = bytes "/a"

abbrev inside : List ℕ
inside = bytes "/a/f"

abbrev deep : List ℕ
deep = bytes "/a/f/g"

valid_rename : validate_rename_paths directory (bytes "/b") ≡ ok tt
unfolding program
valid_rename = refl

below : path_is_in_subtree inside directory ≡ true
unfolding program
below = refl

far_below : path_is_in_subtree deep directory ≡ true
unfolding program
far_below = refl

inner_below : path_is_in_subtree deep inside ≡ true
unfolding program
inner_below = refl

rename-disjoint_example : path_is_in_subtree inside (bytes "/b") ≡ false
rename-disjoint_example = rename-disjoint inside directory (bytes "/b") valid_rename below

in_subtree_trans_example : path_is_in_subtree deep directory ≡ true
in_subtree_trans_example = in_subtree_trans deep inside directory inner_below below

read_kind : try_from 4 ≡ ok InvalidationKind.rename
unfolding program
read_kind = refl

try_from-wire_value_example :
    try_from (wire_value InvalidationKind.rename) ≡ ok InvalidationKind.rename
try_from-wire_value_example = try_from-wire_value InvalidationKind.rename

spec_for-round_trip_example :
    (s : OperationSpec) × (spec_for Operation.flock ≡ some s)
    × (s.operation ≡ Operation.flock)
    × (s.wire_value ≡ discriminant Operation.flock)
    × (operation_for_wire_value s.wire_value ≡ some Operation.flock)
    × (operation_for_subject_token s.subject_token ≡ some Operation.flock)
spec_for-round_trip_example = spec_for-round_trip Operation.flock

read_operation : try_from_wire 27 ≡ ok Operation.flock
unfolding program
read_operation = refl

named_operation : operation_for_subject_token "flock" ≡ some Operation.flock
unfolding program
named_operation = refl

-- The request that makes a directory, as bytes.
mkdir_encoded : (bytes : Framed) × (encode_request kept_prost mkdir_request ≡ ok bytes)
mkdir_encoded =
    encode_request-total kept_prost kept_laws mkdir_request (unfold Example.program in refl)

decode_request-encode_request_example : decode_request kept_prost mkdir_encoded.0 ≡ ok mkdir_request
decode_request-encode_request_example =
    decode_request-encode_request kept_prost kept_laws mkdir_request mkdir_encoded.0 mkdir_encoded.1

decode_request-valid_example : RequestEnvelope.validate mkdir_request ≡ ok tt
decode_request-valid_example = decode_request-valid kept_prost mkdir_request mkdir_encoded.0 (
    decode_request-encode_request kept_prost kept_laws mkdir_request mkdir_encoded.0
      mkdir_encoded.1)

abbrev made : ResponseEnvelope
made = (dispatch counting_dispatcher 1 at_start mkdir_request (metadata_of mkdir_request)).1

made_encoded : (bytes : Framed) × (encode_response kept_prost made ≡ ok bytes)
made_encoded =
    encode_response-total kept_prost kept_laws made
      (dispatch-valid counting_dispatcher 1 at_start mkdir_request (metadata_of mkdir_request))

decode_response-encode_response_example : decode_response kept_prost made_encoded.0 ≡ ok made
decode_response-encode_response_example =
    decode_response-encode_response kept_prost kept_laws made made_encoded.0 made_encoded.1
