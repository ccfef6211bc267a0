-- ===== src/Core/Dispatcher/Releasing.antt =====
-- fs-core/src/lib.rs: what a response that cannot be delivered has opened, and how much a read returns.
use fabric_fs.Core.Dispatcher.Opened.{opened_by, opened_by-none, payload-released}
use fabric_fs.Prelude.{
  ℕ, ◌≤◌, ◌≡◌, refl, sym, ◌∙◌, Bool, true, false, not, length, string_eq, Option, none, some,
  if◌then◌else◌, ok, err, ok-seq, get_elem?, arith,
}
use mathlib.Core.Path.{subst}
use fabric_fs.Protocol.Operation.{same_operation, discriminant}
use fabric_fs.Protocol.OperationSpec.NodeRows.{node_rows}
use fabric_fs.Protocol.OperationSpec.AttributeRows.{attribute_rows}
use fabric_fs.Protocol.OperationSpec.SyncRows.{sync_rows}
use fabric_fs.Protocol.OperationSpec.Table.{operation_specs, spec_for, same_operation-≡}
use fabric_fs.Protocol.Messages.Requests.{ReadRequest}
use fabric_fs.Protocol.Messages.Responses.{ReadResponse}
use fabric_fs.Protocol.RequestPayload
use fabric_fs.Protocol.RequestPayload.{RequestPayload}
use fabric_fs.Protocol.ResponsePayload
use fabric_fs.Protocol.ResponsePayload.{ResponsePayload, opened_handle, check_limit}
use fabric_fs.Protocol.RequestEnvelope
use fabric_fs.Protocol.RequestEnvelope.{RequestEnvelope}
use fabric_fs.Protocol.ResponseEnvelope
use fabric_fs.Protocol.ResponseEnvelope.{
  ResponseEnvelope, failure_for, validate_identity_and_payload, validate_state,
  validate_payload_for_request, has_payload, has_errno, has_error,
}
use fabric_fs.Protocol.ResponseEnvelope.Answers.{fits-request, validate-IsNamed}
use fabric_fs.Core.Service.{RpcMetadata, FsResult}
use fabric_fs.Core.Handling.{ResourceLimits, check_limits, check_payload, validate_before_handler}
use fabric_fs.Core.Dispatcher.{
  Dispatcher, DispatcherState, dispatch, dispatch_checked, opens, handle_of, release_of,
  release_for_handle_response,
}
use fabric_fs.Core.Dispatcher.Answering.{before_handler-valid, dispatch-answers}

-- Only the operations that open a handle by the table have a payload that opens one.
payload-opens :
    (request : RequestEnvelope) (p : ResponsePayload)
    → (if not (opens (spec_for (ResponsePayload.operation p)))
        then none
        else release_of request (opened_handle p))
      ≡ release_of request (opened_handle p)
unfolding opened_handle ResponsePayload.operation spec_for operation_specs node_rows attribute_rows
    sync_rows discriminant get_elem?
payload-opens request (ResponsePayload.«open» v) = refl
payload-opens request (ResponsePayload.create v) = refl
payload-opens request (ResponsePayload.lookup v) = refl
payload-opens request _ = refl

failed-empty :
    (r : ResponseEnvelope)
    → validate_identity_and_payload r ≡ ok tt
    → r.is_success ≡ false
    → has_payload r.payload ≡ false
unfolding validate_identity_and_payload validate_state
failed-empty r h f = ground arith

answer-fits :
    (request : RequestEnvelope) (r : ResponseEnvelope) (p : ResponsePayload)
    → ResponseEnvelope.validate_for_request r request ≡ ok tt
    → r.payload ≡ some p
    → (RequestEnvelope.validate request ≡ ok tt)
      × (ResponsePayload.validate_for_request p request.payload ≡ ok tt)
unfolding ResponseEnvelope.validate_for_request
    ResponseEnvelope.validate_identity_and_payload_for_request validate_payload_for_request
answer-fits request r p h hp =
    let checked : validate_payload_for_request r.payload request.payload ≡ ok tt = ground arith in
    (ground arith, subst (λ o. validate_payload_for_request o request.payload ≡ ok tt) hp checked)

-- The operation of the request is the payload's.
answer-operation :
    (request : RequestEnvelope) (r : ResponseEnvelope) (p : ResponsePayload)
    → ResponseEnvelope.validate_for_request r request ≡ ok tt
    → r.payload ≡ some p
    → ResponsePayload.operation p ≡ request.operation
answer-operation request r p h hp =
    let (valid, fits) = answer-fits request r p h hp in
    let (same, well) = fits-request p request.payload fits in
    let n = validate-IsNamed request valid in
    same_operation-≡ _ _ same ∙ sym (same_operation-≡ _ _ n.same)

release_for_handle_response-opened :
    (request : RequestEnvelope) (r : ResponseEnvelope)
    → ResponseEnvelope.validate_for_request r request ≡ ok tt
    → release_for_handle_response request r ≡ release_of request (handle_of r.payload)
unfolding release_for_handle_response ResponseEnvelope.validate_for_request
    ResponseEnvelope.validate_identity_and_payload_for_request
release_for_handle_response-opened request r h = by_payload r.is_success r.payload refl refl
  where
    by_payload :
        (b : Bool) (o : Option ResponsePayload)
        → r.is_success ≡ b
        → r.payload ≡ o
        → (if not b
            then none
            else if not (opens (spec_for request.operation))
            then none
            else release_of request (handle_of o))
          ≡ release_of request (handle_of o)
    by_payload true none hs hp = ground arith
    by_payload false none hs hp = refl
    by_payload false (some p) hs hp = absurd (ground (arith, failed-empty r, hp))
    by_payload true (some p) hs hp =
        subst
          (λ o.
            (if not (opens (spec_for o)) then none else release_of request (opened_handle p))
            ≡ release_of request (opened_handle p))
          (answer-operation request r p h hp) (payload-opens request p)

-- A response that answers a request is released by the handle that it carries, at the path that an open
-- or a create asked for, and by nothing if it is a failure or answers any other operation.
pub release_for_handle_response-opened_by :
    (request : RequestEnvelope) (r : ResponseEnvelope)
    → ResponseEnvelope.validate_for_request r request ≡ ok tt
    → release_for_handle_response request r ≡ opened_by request.payload r.payload
release_for_handle_response-opened_by request r h =
    release_for_handle_response-opened request r h ∙ by_payload r.payload refl
  where
    by_payload :
        (o : Option ResponsePayload)
        → r.payload ≡ o
        → release_of request (handle_of o) ≡ opened_by request.payload o
    by_payload none e = sym (opened_by-none request.payload)
    by_payload (some p) e =
        let (valid, fits) = answer-fits request r p h e in
        payload-released request p (same_operation-≡ _ _ (fits-request p request.payload fits).0)

payload-limited :
    (limits : ResourceLimits) (request : RequestEnvelope) (metadata : RpcMetadata)
    → check_limits limits request metadata ≡ ok tt
    → check_payload limits request.payload ≡ ok tt
unfolding check_limits
payload-limited limits request metadata h = (ok-seq _ (check_payload limits request.payload) tt h).1

read-limited :
    (limits : ResourceLimits) (asked : ReadRequest)
    → check_payload limits (RequestPayload.read asked) ≡ ok tt
    → asked.size ≤ limits.max_read_bytes
unfolding check_payload
read-limited limits asked h = ground arith

read-fits :
    (asked : ReadRequest) (answered : ReadResponse)
    → ResponsePayload.validate_for_request
        (ResponsePayload.read answered)
        (RequestPayload.read asked)
      ≡ ok tt
    → length answered.content ≤ asked.size
unfolding ResponsePayload.validate_for_request ResponsePayload.validate check_limit
    ResponsePayload.operation RequestPayload.operation same_operation spec_for operation_specs
    node_rows attribute_rows sync_rows discriminant get_elem?
read-fits asked answered h = ground arith

module _ {S : Type 0} (d : Dispatcher S) (now : ℕ) (state : DispatcherState S)
    (request : RequestEnvelope) (metadata : RpcMetadata) where
  -- A dispatch that succeeds has kept to the limits.
  success-limited :
      (dispatch d now state request metadata).1.is_success ≡ true
      → (RequestEnvelope.validate request ≡ ok tt)
        × (check_limits d.limits request metadata ≡ ok tt)
  unfolding dispatch failure_for
  success-limited h =
      checked (validate_before_handler d.display d.authorizer d.limits now request metadata) refl h
    where
      checked :
          (r : FsResult (Unit {0}))
          → validate_before_handler d.display d.authorizer d.limits now request metadata ≡ r
          → (dispatch_checked d state request metadata r).1.is_success ≡ true
          → (RequestEnvelope.validate request ≡ ok tt)
            × (check_limits d.limits request metadata ≡ ok tt)
      checked (err e) refused h = cc
      checked (ok u) passed h =
          let (valid, limited, allowed) =
            (before_handler-valid d.display d.authorizer d.limits now request metadata passed) in
          (valid, limited)

  -- What a dispatch answers a read with is no longer than the limit of the dispatcher.
  pub dispatch-read :
      (asked : ReadRequest) (answered : ReadResponse)
      → request.payload ≡ RequestPayload.read asked
      → (dispatch d now state request metadata).1.is_success ≡ true
      → (dispatch d now state request metadata).1.payload ≡ some (ResponsePayload.read answered)
      → length answered.content ≤ d.limits.max_read_bytes
  dispatch-read asked answered read succeeded at =
      let (valid, limited) = success-limited succeeded in
      let (v, fits) =
        answer-fits request (dispatch d now state request metadata).1
          (ResponsePayload.read answered) (dispatch-answers d now state request metadata valid)
          at in
      let asked_for : length answered.content ≤ asked.size = read-fits asked answered (
        subst (λ p. ResponsePayload.validate_for_request (ResponsePayload.read answered) p ≡ ok tt)
          read fits) in
      let allowed : asked.size ≤ d.limits.max_read_bytes = read-limited d.limits asked (
        subst (λ p. check_payload d.limits p ≡ ok tt) read
          (payload-limited d.limits request metadata limited)) in
      omega arith
