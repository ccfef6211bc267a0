-- ===== src/Protocol/Codec/Envelopes/Responses.antt =====
-- fs-protocol/src/codec.rs: a response is read back from its bytes.
use fabric_fs.Prelude.{
  ◌≡◌, refl, sym, ap, ◌∙◌, Bool, true, false, not, ◌==◌, ◌===◌, string_eq, Option, none, some, ok,
  ensure, ◌>>◌, ok-bind, ok-seq, ok-injective, arith,
}
use mathlib.Core.Path.{subst}
use fabric_fs.Protocol.Error.{ProtocolError}
use fabric_fs.Protocol.Errno
use fabric_fs.Protocol.Errno.{Errno, is_error, success}
use fabric_fs.Protocol.Operation.{Operation, same_operation}
use fabric_fs.Protocol.OperationSpec.Table.{same_operation-≡}
use fabric_fs.Protocol.Invalidation.{validate_invalidation}
use fabric_fs.Protocol.Validation.{validate_each}
use fabric_fs.Protocol.ResponsePayload
use fabric_fs.Protocol.ResponsePayload.{ResponsePayload}
use fabric_fs.Protocol.RequestEnvelope.{protocol_version_2}
use fabric_fs.Protocol.ResponseEnvelope
use fabric_fs.Protocol.ResponseEnvelope.{
  ResponseEnvelope, validate_identity_and_payload, validate_state, validate_success, has_errno,
  has_payload, has_error,
}
use fabric_fs.Protocol.Codec.{Prost, ProstLaws, RawResponse}
use fabric_fs.Protocol.Codec.Payloads.{encode_response_payload, decode_response_payload}
use fabric_fs.Protocol.Codec.Payloads.Back.{
  encoded, decode_response_payload-back, response_payload-fits,
}
use fabric_fs.Protocol.Codec.Envelopes.{
  operation_value, read_operation, raw_response, encode_success, encode_failure, encode_state,
  encode_response, decode_state, decode_response,
}
use fabric_fs.Protocol.Codec.Envelopes.RoundTrip.{read_operation-operation_value, check_identity-ok}

-- What the checks of a response's envelope say.
pub record IsSent (e : ResponseEnvelope) : Type 0 where
  pub version : (e.protocol_version == protocol_version_2) ≡ true
  pub id_full : (e.request_id === "") ≡ false
  pub namespace_full : (e.namespace === "") ≡ false
  pub state : validate_state e e.is_success ≡ ok tt
  pub each : validate_each validate_invalidation e.invalidations ≡ ok tt

pub validate-IsSent : (e : ResponseEnvelope) → ResponseEnvelope.validate e ≡ ok tt → IsSent e
unfolding ResponseEnvelope.validate validate_identity_and_payload
validate-IsSent e h = record {
  version = ground arith;
  id_full = ground arith;
  namespace_full = ground arith;
  state = ground arith;
  each = ground arith;
}

success-state :
    (e : ResponseEnvelope)
    → validate_state e true ≡ ok tt
    → (payload : ResponsePayload) × (e.payload ≡ some payload)
      × (e.errno ≡ none)
      × (e.operation ≡ ResponsePayload.operation payload)
      × (ResponsePayload.validate payload ≡ ok tt)
unfolding validate_state
success-state e h = go e.errno e.payload refl refl h
  where
    go :
        (errno : Option Errno) (payload : Option ResponsePayload)
        → e.errno ≡ errno
        → e.payload ≡ payload
        → (ensure
              (not (has_errno errno))
              (ProtocolError.invalid_response_state "successful response must not carry errno")
            >> validate_success e payload)
          ≡ ok tt
        → (payload : ResponsePayload) × (e.payload ≡ some payload)
          × (e.errno ≡ none)
          × (e.operation ≡ ResponsePayload.operation payload)
          × (ResponsePayload.validate payload ≡ ok tt)
    go (some errno) payload he hp h = cc
    go none none he hp h = absurd (unfold validate_success in cc)
    go none (some payload) he hp h =
        let same : same_operation (ResponsePayload.operation payload) e.operation ≡ true =
          unfold validate_success in ground arith in
        (
          payload,
          hp,
          he,
          sym (same_operation-≡ (ResponsePayload.operation payload) e.operation same),
          unfold validate_success in ground arith,
        )

failure-state :
    (e : ResponseEnvelope)
    → validate_state e false ≡ ok tt
    → (errno : Errno) × (e.errno ≡ some errno) × (e.payload ≡ none) × (is_error errno ≡ true)
unfolding validate_state
failure-state e h = go e.errno e.payload refl refl h
  where
    go :
        (errno : Option Errno) (payload : Option ResponsePayload)
        → e.errno ≡ errno
        → e.payload ≡ payload
        → (ensure
              (not (has_payload payload))
              (ProtocolError.invalid_response_state "error response must not carry payload")
            >> ensure
                (has_error errno)
                (ProtocolError.invalid_response_state "missing error errno"))
          ≡ ok tt
        → (errno : Errno) × (e.errno ≡ some errno) × (e.payload ≡ none) × (is_error errno ≡ true)
    go errno (some payload) he hp h = cc
    go none none he hp h = cc
    go (some errno) none he hp h = (errno, he, hp, ground arith)

not_zero : (errno : Errno) → is_error errno ≡ true → (errno.raw == 0) ≡ false
unfolding is_error
not_zero errno h = ground arith

-- A response by its state.
abbrev in_state : ResponseEnvelope → Bool → Option Errno → Option ResponsePayload → ResponseEnvelope
in_state e is_success errno payload = record e {
  is_success = is_success;
  errno = errno;
  payload = payload;
}

in_state-own :
    (e : ResponseEnvelope) (is_success : Bool) (errno : Option Errno)
    (payload : Option ResponsePayload)
    → e.is_success ≡ is_success
    → e.errno ≡ errno
    → e.payload ≡ payload
    → in_state e is_success errno payload ≡ e
in_state-own e is_success errno payload hs he hp = rw (sym hs, sym he, sym hp) refl

module _ {P E : Type 0} (prost : Prost P E) (laws : ProstLaws prost) where
  -- What the decoding does with the raw response of a valid one.
  raw_response-back :
      (e : ResponseEnvelope) (p : P) (o : Operation) (errno : Errno) (bytes : E)
      → IsSent e
      → e.operation ≡ o
      → prost.encode_raw_response (raw_response e p o errno) ≡ ok bytes
      → decode_state prost (raw_response e p o errno) e.operation errno e.is_success ≡ ok e
      → decode_response prost bytes ≡ ok e
  unfolding decode_response Errno.try_from Errno.wire_value
  raw_response-back e p o errno bytes s same h back =
      let read : read_operation (operation_value e.operation) (operation_value o) ≡ ok e.operation =
        rw⁻¹ same (read_operation-operation_value e.operation) in
      rw
        (
          laws.response_back (raw_response e p o errno) bytes h,
          check_identity-ok e.protocol_version e.request_id e.namespace s.version s.id_full
              s.namespace_full,
          read,
          s.each,
          back,
        )
        refl

  success-decoded :
      (e : ResponseEnvelope) (payload : ResponsePayload) (p : P)
      → e.is_success ≡ true
      → e.payload ≡ some payload
      → e.errno ≡ none
      → e.operation ≡ ResponsePayload.operation payload
      → ResponsePayload.validate payload ≡ ok tt
      → encode_response_payload prost payload ≡ ok p
      → decode_state prost
          (raw_response e p (ResponsePayload.operation payload) success)
          e.operation
          success
          true
        ≡ ok e
  unfolding decode_state
  success-decoded e payload p hs hp he same valid h =
      let back : decode_response_payload prost e.operation p ≡ ok payload =
        rw same (decode_response_payload-back prost laws payload p h valid) in
      rw back (ap ok (in_state-own e true none (some payload) hs he hp))

  failure-decoded :
      (e : ResponseEnvelope) (errno : Errno)
      → e.is_success ≡ false
      → e.payload ≡ none
      → e.errno ≡ some errno
      → is_error errno ≡ true
      → decode_state prost (raw_response e prost.no_bytes e.operation errno) e.operation errno false
        ≡ ok e
  unfolding decode_state
  failure-decoded e errno hs hp he bad =
      rw (not_zero errno bad, laws.nothing_empty)
        (ap ok (in_state-own e false (some errno) none hs he hp))

  -- The raw response of a state, and what it is read back as.
  abbrev ReadsBack : ResponseEnvelope → RawResponse P → Bool → Type 0
  ReadsBack e raw b =
      (p : P) × (o : Operation) × (errno : Errno) × (raw ≡ raw_response e p o errno)
      × (e.operation ≡ o)
      × (decode_state prost (raw_response e p o errno) e.operation errno b ≡ ok e)

  success-raw :
      (e : ResponseEnvelope) (raw : RawResponse P)
      → e.is_success ≡ true
      → validate_state e true ≡ ok tt
      → encode_success prost e e.payload ≡ ok raw
      → ReadsBack e raw true
  unfolding encode_success
  success-raw e raw hs v hr =
      let (payload, hp, he, same, valid) = success-state e v in
      let own : encode_success prost e (some payload) ≡ ok raw =
        subst (λ o. encode_success prost e o ≡ ok raw) hp hr in
      let (p, h, at) =
        ok-bind (encode_response_payload prost payload)
          (λ bytes. ok (raw_response e bytes (ResponsePayload.operation payload) success)) raw
          own in
      (
        p,
        ResponsePayload.operation payload,
        success,
        sym (ok-injective at),
        same,
        success-decoded e payload p hs hp he same valid h,
      )

  encode_failure-error :
      (e : ResponseEnvelope) (errno : Errno)
      → is_error errno ≡ true
      → encode_failure prost e (some errno) ≡ ok (raw_response e prost.no_bytes e.operation errno)
  unfolding encode_failure
  encode_failure-error e errno bad = rw bad refl

  failure-raw :
      (e : ResponseEnvelope) (raw : RawResponse P)
      → e.is_success ≡ false
      → validate_state e false ≡ ok tt
      → encode_failure prost e e.errno ≡ ok raw
      → ReadsBack e raw false
  failure-raw e raw hs v hr =
      let (errno, he, hp, bad) = failure-state e v in
      let own : encode_failure prost e (some errno) ≡ ok raw =
        subst (λ o. encode_failure prost e o ≡ ok raw) he hr in
      (
        prost.no_bytes,
        e.operation,
        errno,
        ok-injective (sym own ∙ encode_failure-error e errno bad),
        refl,
        failure-decoded e errno hs hp he bad,
      )

  state-raw :
      (e : ResponseEnvelope) (raw : RawResponse P) (b : Bool)
      → e.is_success ≡ b
      → validate_state e b ≡ ok tt
      → encode_state prost e b ≡ ok raw
      → ReadsBack e raw b
  unfolding encode_state
  state-raw e raw true hs v hr = success-raw e raw hs v hr
  state-raw e raw false hs v hr = failure-raw e raw hs v hr

  state-fits :
      (e : ResponseEnvelope) (b : Bool)
      → validate_state e b ≡ ok tt
      → (raw : RawResponse P) × (encode_state prost e b ≡ ok raw)
  unfolding encode_state encode_success
  state-fits e true v =
      let (payload, hp, he, same, valid) = success-state e v in
      let (p, h) = response_payload-fits prost laws payload in
      (
        raw_response e p (ResponsePayload.operation payload) success,
        subst
            (λ o.
              encode_success prost e o
              ≡ ok (raw_response e p (ResponsePayload.operation payload) success))
            (sym hp) (rw h refl),
      )
  state-fits e false v =
      let (errno, he, hp, bad) = failure-state e v in
      (
        _,
        subst (λ o. encode_failure prost e o ≡ ok (raw_response e prost.no_bytes e.operation errno))
            (sym he) (encode_failure-error e errno bad),
      )

  -- With a protobuf library that reads back what it writes, a response that is encoded is decoded to
  -- itself, a failure as well as a success with its invalidations.
  pub decode_response-encode_response :
      (e : ResponseEnvelope) (bytes : E)
      → encode_response prost e ≡ ok bytes
      → decode_response prost bytes ≡ ok e
  unfolding encode_response
  decode_response-encode_response e bytes h =
      let (valid, rest) = ok-seq (ResponseEnvelope.validate e) _ bytes h in
      let (raw, hr, sent) = ok-bind (encode_state prost e e.is_success) _ bytes rest in
      let s = validate-IsSent e valid in
      let (p, o, errno, at, same, back) = state-raw e raw e.is_success refl s.state hr in
      raw_response-back e p o errno bytes s same
        (subst (λ r. prost.encode_raw_response r ≡ ok bytes) at
          (encoded (prost.encode_raw_response raw) bytes sent))
        back

  -- Every valid response is encoded.
  pub encode_response-total :
      (e : ResponseEnvelope)
      → ResponseEnvelope.validate e ≡ ok tt
      → (bytes : E) × (encode_response prost e ≡ ok bytes)
  unfolding encode_response
  encode_response-total e valid =
      let (raw, hr) = state-fits e e.is_success (validate-IsSent e valid).state in
      let (bytes, h) = laws.response_fits raw in (bytes, rw (valid, hr, h) refl)
