-- ===== src/Protocol/ResponseEnvelope/Answers.antt =====
-- The envelopes that `success_for` and `failure_for` make are valid, and answer their request.
use fabric_fs.Prelude.{
  ◌≡◌, refl, true, false, List, String, ◌===◌, string_eq, ===_refl, Bool-cases, inl, inr,
  if◌then◌else◌, ok, arith,
}
use fabric_fs.Protocol.Errno.{Errno, is_error}
use fabric_fs.Protocol.Operation.{Operation, same_operation}
use fabric_fs.Protocol.Invalidation.{Invalidation, validate_invalidation}
use fabric_fs.Protocol.RequestPayload
use fabric_fs.Protocol.RequestPayload.{RequestPayload}
use fabric_fs.Protocol.ResponsePayload
use fabric_fs.Protocol.ResponsePayload.{ResponsePayload}
use fabric_fs.Protocol.RequestEnvelope
use fabric_fs.Protocol.RequestEnvelope.{RequestEnvelope, validate_identity}
use fabric_fs.Protocol.ResponseEnvelope
use fabric_fs.Protocol.ResponseEnvelope.{
  ResponseEnvelope, validate_identity_and_payload, validate_payload_for_request, validate_success,
  validate_state, success_envelope, success_for, failure_for, as_error, response_request_id,
  response_namespace,
}
use fabric_fs.Protocol.Validation.{validate_each}

-- A text that is replaced when it is empty.
named :
    (s fallback : String)
    → (fallback === "") ≡ false
    → ((if s === "" then fallback else s) === "") ≡ false
named s fallback h = elim (Bool-cases (s === "")) [ inl e ↦ rw (e, h) | inr e ↦ rw (e, e) ]

response_request_id-full :
    (request : RequestEnvelope) → (response_request_id request === "") ≡ false
unfolding response_request_id
response_request_id-full request = named request.request_id "malformed-request" refl

response_namespace-full : (request : RequestEnvelope) → (response_namespace request === "") ≡ false
unfolding response_namespace
response_namespace-full request = named request.namespace "malformed-namespace" refl

as_error-error : (e : Errno) → is_error (as_error e) ≡ true
unfolding as_error is_error
as_error-error e = ground arith

-- A failure is a valid response, whatever the request and the error are.
pub failure_for-valid :
    (request : RequestEnvelope) (errno : Errno) (message : String)
    → ResponseEnvelope.validate (failure_for request errno message) ≡ ok tt
unfolding ResponseEnvelope.validate validate_state failure_for validate_identity_and_payload
    validate_each
failure_for-valid request errno message =
    rw (response_request_id-full request, response_namespace-full request, as_error-error errno)

same_operation-sym : (a b : Operation) → same_operation a b ≡ true → same_operation b a ≡ true
unfolding same_operation
same_operation-sym a b h = ground arith

pub same_operation_refl : (a : Operation) → same_operation a a ≡ true
unfolding same_operation
same_operation_refl a = ground arith

pub same_operation_trans :
    (a b c : Operation)
    → same_operation a b ≡ true
    → same_operation b c ≡ true
    → same_operation a c ≡ true
unfolding same_operation
same_operation_trans a b c h g = ground arith

-- What the checks of a request's envelope say.
pub record IsNamed (request : RequestEnvelope) : Type 0 where
  pub id_full : (request.request_id === "") ≡ false
  pub namespace_full : (request.namespace === "") ≡ false
  pub same : same_operation request.operation (RequestPayload.operation request.payload) ≡ true
  pub payload_valid : RequestPayload.validate request.payload ≡ ok tt

pub validate-IsNamed :
    (request : RequestEnvelope) → RequestEnvelope.validate request ≡ ok tt → IsNamed request
unfolding RequestEnvelope.validate validate_identity
validate-IsNamed request h = record {
  id_full = ground arith;
  namespace_full = ground arith;
  same = ground arith;
  payload_valid = ground arith;
}

-- What the checks of a payload against its request say.
pub fits-request :
    (payload : ResponsePayload) (request : RequestPayload)
    → ResponsePayload.validate_for_request payload request ≡ ok tt
    → (same_operation (ResponsePayload.operation payload) (RequestPayload.operation request) ≡ true)
      × (ResponsePayload.validate payload ≡ ok tt)
unfolding ResponsePayload.validate_for_request
fits-request payload request h = (ground arith, ground arith)

-- A valid request that a fitting payload and well-formed invalidations answer has its success, which
-- is valid and answers the request.
pub success_envelope-answers :
    (request : RequestEnvelope) (payload : ResponsePayload) (invalidations : List Invalidation)
    → RequestEnvelope.validate request ≡ ok tt
    → ResponsePayload.validate_for_request payload request.payload ≡ ok tt
    → validate_each validate_invalidation invalidations ≡ ok tt
    → ResponseEnvelope.validate_for_request (success_envelope request payload invalidations) request
      ≡ ok tt
unfolding ResponseEnvelope.validate_for_request
    ResponseEnvelope.validate_identity_and_payload_for_request validate_state validate_success
    validate_identity_and_payload validate_payload_for_request
success_envelope-answers request payload invalidations valid fits each =
    let n = validate-IsNamed request valid in
    let (op, well) = fits-request payload request.payload fits in
    let back : same_operation (ResponsePayload.operation payload) request.operation ≡ true =
      same_operation_trans _ _ _ op (same_operation-sym _ _ n.same) in
    rw (
      valid,
      fits,
      well,
      each,
      n.id_full,
      n.namespace_full,
      back,
      same_operation_refl request.operation,
      ===_refl request.request_id,
      ===_refl request.namespace,
    )

-- A response that answers a request is valid.
pub answer-valid :
    (response : ResponseEnvelope) (request : RequestEnvelope)
    → ResponseEnvelope.validate_for_request response request ≡ ok tt
    → ResponseEnvelope.validate response ≡ ok tt
unfolding ResponseEnvelope.validate ResponseEnvelope.validate_for_request
    ResponseEnvelope.validate_identity_and_payload_for_request
answer-valid response request h = ground arith

pub success_for-total :
    (request : RequestEnvelope) (payload : ResponsePayload) (invalidations : List Invalidation)
    → RequestEnvelope.validate request ≡ ok tt
    → ResponsePayload.validate_for_request payload request.payload ≡ ok tt
    → validate_each validate_invalidation invalidations ≡ ok tt
    → success_for request payload invalidations
      ≡ ok (success_envelope request payload invalidations)
unfolding success_for
success_for-total request payload invalidations valid fits each =
    let n = validate-IsNamed request valid in
    let (op, well) = fits-request payload request.payload fits in
    let forth : same_operation request.operation (ResponsePayload.operation payload) ≡ true =
      same_operation_trans _ _ _ n.same (same_operation-sym _ _ op) in
    rw (valid, fits, forth, success_envelope-answers request payload invalidations valid fits each)

-- A failure answers every valid request.
pub failure_for-answers :
    (request : RequestEnvelope) (errno : Errno) (message : String)
    → RequestEnvelope.validate request ≡ ok tt
    → ResponseEnvelope.validate_for_request (failure_for request errno message) request ≡ ok tt
unfolding ResponseEnvelope.validate_for_request
    ResponseEnvelope.validate_identity_and_payload_for_request validate_state
    validate_identity_and_payload validate_payload_for_request failure_for response_request_id
    response_namespace validate_each
failure_for-answers request errno message valid =
    let n = validate-IsNamed request valid in
    rw (
      valid,
      n.id_full,
      n.namespace_full,
      n.id_full,
      n.namespace_full,
      as_error-error errno,
      same_operation_refl request.operation,
      ===_refl request.request_id,
      ===_refl request.namespace,
    )
