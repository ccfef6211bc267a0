-- ===== src/Transport/Local/Same.antt =====
-- fs-transport-local/src/lib.rs: the bytes between the client and the dispatcher change nothing.
use fabric_fs.Prelude.{ℕ, ◌≡◌, refl, true, leb, ok}
use fabric_fs.Protocol.RequestEnvelope.{RequestEnvelope}
use fabric_fs.Protocol.Codec.{ProstLaws}
use fabric_fs.Protocol.Codec.Envelopes.{encode_request, encode_response}
use fabric_fs.Protocol.Codec.Envelopes.RoundTrip.{decode_request-encode_request}
use fabric_fs.Protocol.Codec.Envelopes.Responses.{decode_response-encode_response}
use fabric_fs.Core.Service.{for_request}
use fabric_fs.Core.Dispatcher.{dispatch}
use fabric_fs.Transport.Local.{LocalClient, LocalState, call_bytes, call_serialized}

-- With a protobuf library that reads back what it writes, and while it is connected, a request whose
-- own frame and whose response's frame fit has over bytes the response and the effect of a dispatch
-- with the length of its frame.
pub call_serialized-dispatch :
    {S P E : Type 0} (c : LocalClient S P E) (laws : ProstLaws c.prost) (now : ℕ) (s : LocalState S)
    (request : RequestEnvelope) (bytes response_bytes : E)
    → s.connected ≡ true
    → encode_request c.prost request ≡ ok bytes
    → leb (c.prost.frame_len bytes) c.max_frame_bytes ≡ true
    → encode_response c.prost
        (dispatch c.dispatcher now s.served request
          (for_request request (c.prost.frame_len bytes) now)).1
      ≡ ok response_bytes
    → leb (c.prost.frame_len response_bytes) c.max_frame_bytes ≡ true
    → call_serialized c now s request ≡ (
      record s {
        served =
            (dispatch c.dispatcher now s.served request
              (for_request request (c.prost.frame_len bytes) now)).0;
      },
      ok
          (dispatch c.dispatcher now s.served request
            (for_request request (c.prost.frame_len bytes) now)).1,
    )
unfolding call_serialized call_bytes
call_serialized-dispatch c laws now s request bytes response_bytes connected h fits hr fits' =
    rw
      (
        h,
        connected,
        fits,
        decode_request-encode_request c.prost laws request bytes h,
        hr,
        fits',
        decode_response-encode_response c.prost laws _ response_bytes hr,
      )
      refl
