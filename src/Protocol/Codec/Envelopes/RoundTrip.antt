-- ===== src/Protocol/Codec/Envelopes/RoundTrip.antt =====
-- fs-protocol/src/codec.rs: an envelope is read back from its bytes, and only valid ones are read.
use fabric_fs.Prelude.{
  ℕ, ◌≡◌, refl, true, false, ◌==◌, ◌===◌, string_eq, some, String, ok, ok-bind, ok-seq,
  ok-injective, arith,
}
use fabric_fs.Protocol.Operation.{Operation, same_operation}
use fabric_fs.Protocol.OperationSpec.Table.{
  wire_value_of, try_from_wire, spec_for-round_trip, same_operation-≡,
}
use fabric_fs.Protocol.RequestPayload
use fabric_fs.Protocol.RequestPayload.{RequestPayload}
use fabric_fs.Protocol.RequestEnvelope
use fabric_fs.Protocol.RequestEnvelope.{RequestEnvelope, validate_identity, protocol_version_2}
use fabric_fs.Protocol.ResponseEnvelope.Answers.{validate-IsNamed, same_operation_refl}
use fabric_fs.Protocol.Codec.{Prost, ProstLaws, map_decode}
use fabric_fs.Protocol.Codec.Payloads.{encode_request_payload, decode_request_payload}
use fabric_fs.Protocol.Codec.Payloads.Back.{
  encoded, decode_request_payload-back, request_payload-fits,
}
use fabric_fs.Protocol.Codec.Payloads.Read.{decode_request_payload-valid}
use fabric_fs.Protocol.Codec.Envelopes.{
  operation_value, raw_request, encode_request, check_identity, read_operation, request_of,
  decode_request,
}

try_from_wire-operation_value : (o : Operation) → try_from_wire (operation_value o) ≡ ok o
unfolding try_from_wire
try_from_wire-operation_value o =
    let (s, at, is_o, number, found, token) = spec_for-round_trip o in
    let row : wire_value_of o ≡ some s.wire_value = unfold wire_value_of in rw at refl in
    let value : operation_value o ≡ s.wire_value = unfold operation_value in rw row refl in
    rw (value, try_from_wire, found) refl

pub read_operation-operation_value :
    (o : Operation) → read_operation (operation_value o) (operation_value o) ≡ ok o
unfolding read_operation
read_operation-operation_value o = rw (try_from_wire-operation_value o, same_operation_refl o) refl

request_version :
    (e : RequestEnvelope)
    → RequestEnvelope.validate e ≡ ok tt
    → (e.protocol_version == protocol_version_2) ≡ true
unfolding RequestEnvelope.validate validate_identity
request_version e h = ground arith

pub check_identity-ok :
    (version : ℕ) (request_id namespace : String)
    → (version == protocol_version_2) ≡ true
    → (request_id === "") ≡ false
    → (namespace === "") ≡ false
    → check_identity version request_id namespace ≡ ok tt
unfolding check_identity
check_identity-ok version request_id namespace v i n = rw (v, i, n) refl

-- What the decoding checks is what makes an envelope valid.
identity-valid :
    (version : ℕ) (request_id namespace : String) (e : RequestEnvelope)
    → e.protocol_version ≡ version
    → e.request_id ≡ request_id
    → e.namespace ≡ namespace
    → check_identity version request_id namespace ≡ ok tt
    → RequestPayload.operation e.payload ≡ e.operation
    → RequestPayload.validate e.payload ≡ ok tt
    → RequestEnvelope.validate e ≡ ok tt
unfolding check_identity RequestEnvelope.validate validate_identity
identity-valid version request_id namespace e v i n h same valid =
    let reflexive : same_operation e.operation (RequestPayload.operation e.payload) ≡ true =
      rw same (same_operation_refl e.operation) in
    rw (reflexive, valid, v, i, n) (ground arith)

module _ {P E : Type 0} (prost : Prost P E) (laws : ProstLaws prost) where
  raw_request-back :
      (e : RequestEnvelope) (p : P) (bytes : E)
      → RequestEnvelope.validate e ≡ ok tt
      → encode_request_payload prost e.payload ≡ ok p
      → prost.encode_raw_request (raw_request e p) ≡ ok bytes
      → e.operation ≡ RequestPayload.operation e.payload
      → decode_request prost bytes ≡ ok e
  unfolding decode_request
  raw_request-back e p bytes valid hp h same =
      let n = validate-IsNamed e valid in
      let read : read_operation (operation_value e.operation)
            (operation_value (RequestPayload.operation e.payload))
          ≡ ok e.operation =
        rw⁻¹ same (read_operation-operation_value e.operation) in
      let back : decode_request_payload prost e.operation p ≡ ok e.payload =
        rw same (decode_request_payload-back prost laws e.payload p hp n.payload_valid) in
      rw
        (
          laws.request_back (raw_request e p) bytes h,
          check_identity-ok e.protocol_version e.request_id e.namespace (request_version e valid)
              n.id_full n.namespace_full,
          read,
          back,
        )
        refl

  -- With a protobuf library that reads back what it writes, a request that is encoded is decoded to
  -- itself.
  pub decode_request-encode_request :
      (e : RequestEnvelope) (bytes : E)
      → encode_request prost e ≡ ok bytes
      → decode_request prost bytes ≡ ok e
  unfolding encode_request
  decode_request-encode_request e bytes h =
      let (valid, rest) = ok-seq (RequestEnvelope.validate e) _ bytes h in
      let (p, hp, sent) = ok-bind (encode_request_payload prost e.payload) _ bytes rest in
      raw_request-back e p bytes valid hp
        (encoded (prost.encode_raw_request (raw_request e p)) bytes sent)
        (same_operation-≡ e.operation (RequestPayload.operation e.payload)
          (validate-IsNamed e valid).same)

  -- Every valid request is encoded.
  pub encode_request-total :
      (e : RequestEnvelope)
      → RequestEnvelope.validate e ≡ ok tt
      → (bytes : E) × (encode_request prost e ≡ ok bytes)
  unfolding encode_request
  encode_request-total e valid =
      let (p, hp) = request_payload-fits prost laws e.payload in
      let (bytes, h) = laws.request_fits (raw_request e p) in (bytes, rw (valid, hp, h) refl)

module _ {P E : Type 0} (prost : Prost P E) where
  -- What is read of any bytes is a valid request.
  pub decode_request-valid :
      (e : RequestEnvelope) (bytes : E)
      → decode_request prost bytes ≡ ok e
      → RequestEnvelope.validate e ≡ ok tt
  unfolding decode_request
  decode_request-valid e bytes h =
      let (raw, hr, rest) = ok-bind (map_decode (prost.decode_raw_request bytes)) _ e h in
      let (checked, rest') =
        ok-seq (check_identity raw.protocol_version raw.request_id raw.namespace) _ e rest in
      let (o, ho, rest'') =
        ok-bind (read_operation raw.operation raw.payload_operation) _ e rest' in
      let (payload, hp, done) = ok-bind (decode_request_payload prost o raw.payload) _ e rest'' in
      let (same, valid) = decode_request_payload-valid prost o raw.payload payload hp in
      rw⁻¹ (ok-injective done) (
        identity-valid raw.protocol_version raw.request_id raw.namespace (request_of raw o payload)
          refl refl refl checked same valid)
