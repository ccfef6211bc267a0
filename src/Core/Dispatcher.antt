-- ===== src/Core/Dispatcher.antt =====
-- fs-core/src/lib.rs, `Dispatcher`: a request goes through the checks, the service and the checks of its
-- answer. `display` is the text of a protocol error.
pub mod Answering
pub mod Opened
pub mod Releasing
use fabric_fs.Prelude.{
  ℕ, String, Bool, true, false, not, if◌then◌else◌, Option, none, some, List, [], Result, ok, err,
}
use fabric_fs.Protocol.Error.{ProtocolError}
use fabric_fs.Protocol.Errno.{
  Errno, invalid_argument, connection_reset, message_too_large, timed_out, io,
}
use fabric_fs.Protocol.Invalidation.{Invalidation}
use fabric_fs.Protocol.Messages.Requests.{ReleaseRequest}
use fabric_fs.Protocol.OperationSpec.Types.{
  OperationSpec, ResponseHandle, no_handle, opened_object, target,
}
use fabric_fs.Protocol.OperationSpec.Table.{spec_for}
use fabric_fs.Protocol.RequestPayload
use fabric_fs.Protocol.ResponsePayload
use fabric_fs.Protocol.ResponsePayload.{ResponsePayload, opened_handle}
use fabric_fs.Protocol.RequestEnvelope.{RequestEnvelope}
use fabric_fs.Protocol.ResponseEnvelope.{ResponseEnvelope, success_for, failure_for}
use fabric_fs.Core.Service.{FsError, FsResult, RpcMetadata, FileSystemService}
use fabric_fs.Core.Handling.{
  ResourceLimits, default_limits, Authorizer, allow_all, validate_before_handler, call_handler,
}
use fabric_fs.Core.Invalidating.{Sequences, invalidations_for_success}

-- What does not change: the service's operations, the authorizer and the limits.
pub record Dispatcher (S : Type 0) : Type 0 where
  pub service : FileSystemService S
  pub authorizer : Authorizer
  pub limits : ResourceLimits
  pub display : ProtocolError → String

unfoldable pub with_authorizer :
    {S : Type 0} → FileSystemService S → Authorizer → (ProtocolError → String) → Dispatcher S
with_authorizer service authorizer display = record {
  service = service;
  authorizer = authorizer;
  limits = default_limits;
  display = display;
}

unfoldable pub new : {S : Type 0} → FileSystemService S → (ProtocolError → String) → Dispatcher S
new service display = with_authorizer service allow_all display

unfoldable pub with_limits : {S : Type 0} → Dispatcher S → ResourceLimits → Dispatcher S
with_limits d limits = record d { limits = limits }

-- What a call changes: the service's own state and the sequence numbers.
pub record DispatcherState (S : Type 0) : Type 0 where
  pub service_state : S
  pub sequences : Sequences

abbrev pub or_failure :
    (ProtocolError → String)
    → RequestEnvelope
    → Result ProtocolError ResponseEnvelope
    → ResponseEnvelope
or_failure display request (ok response) = response
or_failure display request (err error) = failure_for request invalid_argument (display error)

unfoldable pub answer_success :
    (ProtocolError → String)
    → RequestEnvelope
    → ResponsePayload
    → Sequences × List Invalidation
    → Sequences × ResponseEnvelope
answer_success display request payload (sequences, invalidations) =
    (sequences, or_failure display request (success_for request payload invalidations))

-- The service's answer is checked against the request before anything is counted.
abbrev pub respond_checked :
    (ProtocolError → String)
    → Sequences
    → RequestEnvelope
    → ResponsePayload
    → Result ProtocolError (Unit {0})
    → Sequences × ResponseEnvelope
respond_checked display sequences request payload (err error) =
    (sequences, failure_for request invalid_argument (display error))
respond_checked display sequences request payload (ok _) =
    answer_success display request payload (invalidations_for_success sequences request payload)

-- The match on the result of the handler.
unfoldable pub respond :
    (ProtocolError → String)
    → Sequences
    → RequestEnvelope
    → FsResult ResponsePayload
    → Sequences × ResponseEnvelope
respond display sequences request (err error) =
    (sequences, failure_for request error.errno error.message)
respond display sequences request (ok payload) =
    respond_checked display sequences request payload
      (ResponsePayload.validate_for_request payload request.payload)

abbrev pub after_handler :
    {S : Type 0}
    → Dispatcher S
    → Sequences
    → RequestEnvelope
    → S × FsResult ResponsePayload
    → DispatcherState S × ResponseEnvelope
after_handler d sequences request (service_state, result) =
    let (sequences', response) = respond d.display sequences request result in
    (record { service_state = service_state; sequences = sequences' }, response)

abbrev pub dispatch_checked :
    {S : Type 0}
    → Dispatcher S
    → DispatcherState S
    → RequestEnvelope
    → RpcMetadata
    → FsResult (Unit {0})
    → DispatcherState S × ResponseEnvelope
dispatch_checked d state request metadata (err error) =
    (state, failure_for request error.errno error.message)
dispatch_checked d state request metadata (ok _) =
    after_handler d state.sequences request
      (call_handler d.service state.service_state request.payload metadata)

unfoldable pub dispatch :
    {S : Type 0}
    → Dispatcher S
    → ℕ
    → DispatcherState S
    → RequestEnvelope
    → RpcMetadata
    → DispatcherState S × ResponseEnvelope
dispatch d now state request metadata =
    dispatch_checked d state request metadata
      (validate_before_handler d.display d.authorizer d.limits now request metadata)

abbrev pub opens : Option OperationSpec → Bool
opens none = false
opens (some spec) = elim spec.response_handle [ opened_object ↦ true | no_handle ↦ false ]

abbrev pub handle_of : Option ResponsePayload → Option ℕ
handle_of none = none
handle_of (some payload) = opened_handle payload

abbrev pub release_of : RequestEnvelope → Option ℕ → Option ReleaseRequest
release_of request none = none
release_of request (some handle) = some (record {
  path = RequestPayload.path_dto_for_role request.payload target;
  handle = handle;
  flags = 0;
})

unfoldable pub release_for_handle_response :
    RequestEnvelope → ResponseEnvelope → Option ReleaseRequest
release_for_handle_response request response =
    if not response.is_success
    then none
    else if not (opens (spec_for request.operation))
    then none
    else release_of request (handle_of response.payload)

abbrev pub drop_answer : {S R : Type 0} → S × FsResult R → S × FsResult (Unit {0})
drop_answer (s, ok _) = (s, ok tt)
drop_answer (s, err e) = (s, err e)

abbrev pub release_if :
    {S : Type 0}
    → FileSystemService S
    → S
    → RpcMetadata
    → Option ReleaseRequest
    → S × FsResult (Unit {0})
release_if service s metadata none = (s, ok tt)
release_if service s metadata (some release) = drop_answer (service.release s release metadata)

unfoldable pub abort_response_handles :
    {S : Type 0}
    → Dispatcher S
    → DispatcherState S
    → RequestEnvelope
    → RpcMetadata
    → ResponseEnvelope
    → DispatcherState S × FsResult (Unit {0})
abort_response_handles d state request metadata response =
    let (s, r) =
      release_if d.service state.service_state metadata
        (release_for_handle_response request response) in
    (record state { service_state = s }, r)

pub data RpcError : Type 0 where
  connection_closed frame_too_large timeout : RpcError
  malformed transport : String → RpcError

unfoldable pub rpc_errno : RpcError → Errno
rpc_errno RpcError.connection_closed = connection_reset
rpc_errno RpcError.frame_too_large = message_too_large
rpc_errno RpcError.timeout = timed_out
rpc_errno (RpcError.malformed text) = invalid_argument
rpc_errno (RpcError.transport text) = io

-- `RpcClient`: a connection, by its own state.
pub record RpcClient (C : Type 0) : Type 0 where
  pub call_server : C → RequestEnvelope → C × Result RpcError ResponseEnvelope
  pub drain_invalidations : C → String → C × Result RpcError (List Invalidation)
