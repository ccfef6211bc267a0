-- ===== src/Transport/Local.antt =====
-- fs-transport-local/src/lib.rs: a client that calls a dispatcher in its own process, directly or by way
-- of bytes. The clock's reading is an argument; a byte length is a number of the frame.
pub mod Same
use fabric_fs.Prelude.{ℕ, String, Bool, true, false, leb, if◌then◌else◌, List, [], Result, ok, err}
use fabric_fs.Protocol.Error.{ProtocolError}
use fabric_fs.Protocol.Invalidation.{Invalidation}
use fabric_fs.Protocol.RequestEnvelope.{RequestEnvelope}
use fabric_fs.Protocol.ResponseEnvelope.{ResponseEnvelope}
use fabric_fs.Protocol.Codec.{Prost}
use fabric_fs.Protocol.Codec.Envelopes.{
  encode_request, decode_request, encode_response, decode_response,
}
use fabric_fs.Core.Service.{for_request}
use fabric_fs.Core.Dispatcher.{
  Dispatcher, DispatcherState, dispatch, RpcError, RpcClient, connection_closed, frame_too_large,
  malformed,
}

pub data LocalMode : Type 0 where
  direct serialized : LocalMode

pub record LocalClient (S P E : Type 0) : Type 0 where
  pub dispatcher : Dispatcher S
  pub prost : Prost P E
  pub mode : LocalMode
  pub max_frame_bytes : ℕ

-- What a call changes, and the flag that `disconnect` clears.
pub record LocalState (S : Type 0) : Type 0 where
  pub served : DispatcherState S
  pub connected : Bool

abbrev pub default_max_frame_bytes : ℕ
default_max_frame_bytes = 4194304

unfoldable pub local_client :
    {S P E : Type 0} → Dispatcher S → Prost P E → LocalMode → LocalClient S P E
local_client dispatcher prost mode = record {
  dispatcher = dispatcher;
  prost = prost;
  mode = mode;
  max_frame_bytes = default_max_frame_bytes;
}

unfoldable pub with_max_frame_bytes : {S P E : Type 0} → LocalClient S P E → ℕ → LocalClient S P E
with_max_frame_bytes c n = record c { max_frame_bytes = n }

unfoldable pub disconnect : {S : Type 0} → LocalState S → LocalState S
disconnect s = record s { connected = false }

unfoldable pub reconnect : {S : Type 0} → LocalState S → LocalState S
reconnect s = record s { connected = true }

abbrev pub served_as : {S A : Type 0} → LocalState S → DispatcherState S × A → LocalState S × A
served_as s (d, a) = (record s { served = d }, a)

abbrev pub as_malformed :
    {A : Type 0} → (ProtocolError → String) → Result ProtocolError A → Result RpcError A
as_malformed display (ok a) = ok a
as_malformed display (err e) = err (malformed (display e))

module _ {S P E : Type 0} (c : LocalClient S P E) where
  -- `check_frame_len` of the response.
  abbrev pub framed : Result RpcError E → Result RpcError E
  framed (err e) = err e
  framed (ok bytes) =
      if leb (c.prost.frame_len bytes) c.max_frame_bytes then ok bytes else err frame_too_large

  abbrev pub respond_bytes :
      LocalState S → DispatcherState S × ResponseEnvelope → LocalState S × Result RpcError E
  respond_bytes s (d, response) = (
    record s { served = d },
    framed (as_malformed c.dispatcher.display (encode_response c.prost response)),
  )

  abbrev pub serve_bytes :
      ℕ → LocalState S → E → Result ProtocolError RequestEnvelope → LocalState S × Result RpcError E
  serve_bytes now s bytes (err e) = (s, err (malformed (c.dispatcher.display e)))
  serve_bytes now s bytes (ok request) = respond_bytes s (
      dispatch c.dispatcher now s.served request
        (for_request request (c.prost.frame_len bytes) now))

  unfoldable pub call_bytes : ℕ → LocalState S → E → LocalState S × Result RpcError E
  call_bytes now s bytes =
      if s.connected
      then (if leb (c.prost.frame_len bytes) c.max_frame_bytes
          then serve_bytes now s bytes (decode_request c.prost bytes)
          else (s, err frame_too_large))
      else (s, err connection_closed)

  unfoldable pub call_direct :
      ℕ → LocalState S → RequestEnvelope → LocalState S × Result RpcError ResponseEnvelope
  call_direct now s request =
      if s.connected
      then (
        record s {
          served = (dispatch c.dispatcher now s.served request (for_request request 0 now)).0;
        },
        ok (dispatch c.dispatcher now s.served request (for_request request 0 now)).1,
      )
      else (s, err connection_closed)

  abbrev pub read_bytes :
      LocalState S × Result RpcError E → LocalState S × Result RpcError ResponseEnvelope
  read_bytes (s, err e) = (s, err e)
  read_bytes (s, ok bytes) = (s, as_malformed c.dispatcher.display (decode_response c.prost bytes))

  abbrev pub call_encoded :
      ℕ → LocalState S → Result ProtocolError E → LocalState S × Result RpcError ResponseEnvelope
  call_encoded now s (err e) = (s, err (malformed (c.dispatcher.display e)))
  call_encoded now s (ok bytes) = read_bytes (call_bytes now s bytes)

  unfoldable pub call_serialized :
      ℕ → LocalState S → RequestEnvelope → LocalState S × Result RpcError ResponseEnvelope
  call_serialized now s request = call_encoded now s (encode_request c.prost request)

  abbrev pub call_in_mode :
      LocalMode
      → ℕ
      → LocalState S
      → RequestEnvelope
      → LocalState S × Result RpcError ResponseEnvelope
  call_in_mode direct now s request = call_direct now s request
  call_in_mode serialized now s request = call_serialized now s request

  unfoldable pub call :
      ℕ → LocalState S → RequestEnvelope → LocalState S × Result RpcError ResponseEnvelope
  call now s request = call_in_mode c.mode now s request

  unfoldable pub drain_invalidations :
      LocalState S → LocalState S × Result RpcError (List Invalidation)
  drain_invalidations s = if s.connected then (s, ok []) else (s, err connection_closed)

  -- The client as the adapter sees it.
  unfoldable pub as_client : ℕ → RpcClient (LocalState S)
  as_client now = record {
    call_server = λ s request. call now s request;
    drain_invalidations = λ s namespace. drain_invalidations s;
  }
