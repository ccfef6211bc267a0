-- ===== src/Core/Dispatcher/Answering.antt =====
-- fs-core/src/lib.rs, `Dispatcher::dispatch`: every response answers its request.
use fabric_fs.Prelude.{ℕ, ◌≡◌, refl, String, Result, ok, err, arith}
use fabric_fs.Protocol.Error.{ProtocolError}
use fabric_fs.Protocol.Errno.{Errno}
use fabric_fs.Protocol.ResponsePayload
use fabric_fs.Protocol.ResponsePayload.{ResponsePayload}
use fabric_fs.Protocol.RequestEnvelope
use fabric_fs.Protocol.RequestEnvelope.{RequestEnvelope}
use fabric_fs.Protocol.ResponseEnvelope
use fabric_fs.Protocol.ResponseEnvelope.{
  ResponseEnvelope, success_envelope, success_for, failure_for,
}
use fabric_fs.Protocol.ResponseEnvelope.Answers.{
  failure_for-valid, failure_for-answers, success_for-total, success_envelope-answers, answer-valid,
}
use fabric_fs.Core.Service.{FsResult, RpcMetadata}
use fabric_fs.Core.Handling.{
  validate_before_handler, call_handler, check_limits, ResourceLimits, Authorizer,
}
use fabric_fs.Core.Invalidating.{Sequences, invalidations_for_success}
use fabric_fs.Core.Invalidating.Counting.{
  invalidations_for_success-valid, Counted, untouched, invalidations_for_success-Counted,
}
use fabric_fs.Core.Dispatcher.{
  Dispatcher, DispatcherState, answer_success, respond_checked, respond, dispatch_checked, dispatch,
}

-- What passes the checks before the handler is a valid request.
pub before_handler-valid :
    (display : ProtocolError → String) (authorize : Authorizer) (limits : ResourceLimits) (now : ℕ)
    (request : RequestEnvelope) (metadata : RpcMetadata)
    → validate_before_handler display authorize limits now request metadata ≡ ok tt
    → (RequestEnvelope.validate request ≡ ok tt)
      × (check_limits limits request metadata ≡ ok tt)
      × (authorize metadata request ≡ ok tt)
unfolding validate_before_handler
before_handler-valid display authorize limits now request metadata h =
    (ground arith, ground arith, ground arith)

-- The answer to a payload that fits its valid request.
answer_success-fits :
    (display : ProtocolError → String) (sequences : Sequences) (request : RequestEnvelope)
    (payload : ResponsePayload)
    → RequestEnvelope.validate request ≡ ok tt
    → ResponsePayload.validate_for_request payload request.payload ≡ ok tt
    → answer_success display request payload (invalidations_for_success sequences request payload)
      ≡ (
        (invalidations_for_success sequences request payload).0,
        success_envelope request payload (invalidations_for_success sequences request payload).1,
      )
unfolding answer_success
answer_success-fits display sequences request payload valid fits =
    rw
      (success_for-total request payload _ valid fits
        (invalidations_for_success-valid sequences request payload valid))
      refl

-- Two outcomes: nothing is counted and the response is a failure, or the service's payload is delivered
-- with the invalidations of a success.
pub data Outcome (request : RequestEnvelope) (before : Sequences)
    : Sequences × ResponseEnvelope → Type 0 where
  failed :
      (errno : Errno) (message : String)
      → Outcome request before (before, failure_for request errno message)
  delivered :
      (payload : ResponsePayload)
      → RequestEnvelope.validate request ≡ ok tt
      → ResponsePayload.validate_for_request payload request.payload ≡ ok tt
      → Outcome request before (
        (invalidations_for_success before request payload).0,
        success_envelope request payload (invalidations_for_success before request payload).1,
      )

pub Outcome-valid :
    {request : RequestEnvelope} {before : Sequences} {r : Sequences × ResponseEnvelope}
    → Outcome request before r
    → ResponseEnvelope.validate r.1 ≡ ok tt
Outcome-valid {request} (failed errno message) = failure_for-valid request errno message
Outcome-valid {request} {before} (delivered payload valid fits) = answer-valid _ request (
    success_envelope-answers request payload _ valid fits
      (invalidations_for_success-valid before request payload valid))

pub Outcome-answers :
    {request : RequestEnvelope} {before : Sequences} {r : Sequences × ResponseEnvelope}
    → RequestEnvelope.validate request ≡ ok tt
    → Outcome request before r
    → ResponseEnvelope.validate_for_request r.1 request ≡ ok tt
Outcome-answers {request} valid (failed errno message) =
    failure_for-answers request errno message valid
Outcome-answers {request} {before} v (delivered payload valid fits) =
    success_envelope-answers request payload _ valid fits
      (invalidations_for_success-valid before request payload valid)

pub Outcome-Counted :
    {request : RequestEnvelope} {before : Sequences} {r : Sequences × ResponseEnvelope}
    → Outcome request before r
    → Counted request.namespace request.request_id before r.0 r.1.invalidations
unfolding failure_for
Outcome-Counted (failed errno message) = untouched
Outcome-Counted {request} {before} (delivered payload valid fits) =
    invalidations_for_success-Counted before request payload

pub respond-Outcome :
    (display : ProtocolError → String) (sequences : Sequences) (request : RequestEnvelope)
    (result : FsResult ResponsePayload)
    → RequestEnvelope.validate request ≡ ok tt
    → Outcome request sequences (respond display sequences request result)
unfolding respond
respond-Outcome display sequences request (err e) valid = failed e.errno e.message
respond-Outcome display sequences request (ok payload) valid =
    checked (ResponsePayload.validate_for_request payload request.payload) refl
  where
    checked :
        (r : Result ProtocolError (Unit {0}))
        → ResponsePayload.validate_for_request payload request.payload ≡ r
        → Outcome request sequences (respond_checked display sequences request payload r)
    checked (err e) unfit = failed _ _
    checked (ok u) fits =
        (rw (answer_success-fits display sequences request payload valid fits)
          (delivered payload valid fits))

module _ {S : Type 0} (d : Dispatcher S) (now : ℕ) (state : DispatcherState S)
    (request : RequestEnvelope) (metadata : RpcMetadata) where
  pub dispatch-Outcome : Outcome request state.sequences (
    (dispatch d now state request metadata).0.sequences,
    (dispatch d now state request metadata).1,
  )
  unfolding dispatch
  dispatch-Outcome =
      checked (validate_before_handler d.display d.authorizer d.limits now request metadata) refl
    where
      checked :
          (r : FsResult (Unit {0}))
          → validate_before_handler d.display d.authorizer d.limits now request metadata ≡ r
          → Outcome request state.sequences (
            (dispatch_checked d state request metadata r).0.sequences,
            (dispatch_checked d state request metadata r).1,
          )
      checked (err e) refused = failed e.errno e.message
      checked (ok u) passed =
          let (valid, limits, allowed) =
            before_handler-valid d.display d.authorizer d.limits now request metadata passed in
          respond-Outcome d.display state.sequences request
            (call_handler d.service state.service_state request.payload metadata).1 valid

  -- Every response that a dispatch makes is valid, whatever the request and the service are.
  pub dispatch-valid : ResponseEnvelope.validate (dispatch d now state request metadata).1 ≡ ok tt
  dispatch-valid = Outcome-valid dispatch-Outcome

  -- A valid request is answered: the response is valid, has its request id, its namespace and its
  -- operation, and a payload, which only a success has, keeps to what the request asked for.
  pub dispatch-answers :
      RequestEnvelope.validate request ≡ ok tt
      → ResponseEnvelope.validate_for_request (dispatch d now state request metadata).1 request
        ≡ ok tt
  dispatch-answers valid = Outcome-answers valid dispatch-Outcome

  -- A dispatch loses no sequence number: it leaves the counters and sends no invalidation; or it sends
  -- one invalidation of the request with the number that the namespace came to, moves that namespace
  -- on by one (as a u64) and leaves the others; or, after a panic under the lock, it sends a full
  -- resync with the number 0 and begins every namespace anew.
  pub dispatch-Counted :
      Counted request.namespace request.request_id state.sequences
        (dispatch d now state request metadata).0.sequences
        (dispatch d now state request metadata).1.invalidations
  dispatch-Counted = Outcome-Counted dispatch-Outcome
