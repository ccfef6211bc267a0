-- ===== src/Transport/Tests.antt =====
-- The theorems about the transport's policies at concrete values.
use fabric_fs.Prelude.{ltb}
use fabric_fs.Protocol.Operation.{same_operation, discriminant}
use fabric_fs.Protocol.ResponseEnvelope.{ResponseEnvelope}
use fabric_fs.Protocol.Codec.Envelopes.{encode_request, encode_response}
use fabric_fs.Protocol.Codec.Envelopes.RoundTrip.{encode_request-total}
use fabric_fs.Protocol.Codec.Envelopes.Responses.{encode_response-total}
use fabric_fs.Protocol.Codec.Example.{Kept, Framed, kept_prost, kept_laws}
use fabric_fs.Core.Dispatcher.{dispatch}
use fabric_fs.Core.Dispatcher.Answering.{dispatch-valid}
use fabric_fs.Core.Service.{for_request}
use fabric_fs.Core.Example
use fabric_fs.Core.Example.{counting_dispatcher, at_start as nothing_made, mkdir_request}
use fabric_fs.Transport.Local.{LocalClient, LocalState, serialized, call_serialized}
use fabric_fs.Transport.Local.Same.{call_serialized-dispatch}
use fabric_fs.Prelude.{
  Result, ok, err, any, map, is_ok, ℕ, ◌≢◌, ◌≡◌, refl, true, false, not, ◌&&◌, none, some, List, [],
  ◌∷◌, ◌++◌, string_eq,
}
use fabric_fs.Protocol.Invalidation.{Invalidation}
use fabric_fs.Prelude.Names.{contains, without, add}
use fabric_fs.Protocol.Operation.{Operation}
use fabric_fs.Transport.Replay.{
  OwnInvalidationReplay, start, begin, abandon, complete, handle_invalidation,
}
use fabric_fs.Transport.Replay.Bounded.{IsBounded}
use fabric_fs.Transport.Replay.Reached.{
  Reached, at_start, began, Reached-IsBounded, handle_invalidation-complete,
}
use fabric_fs.Transport.Replay.Delivery.{abandon-handle_invalidation}
use fabric_fs.Prelude.Map
use fabric_fs.Transport.Authenticated.{
  Arrival, arrive, arrive_all, discard_expired, claim, authenticated_replay_or_expiry_response,
}
use fabric_fs.Transport.Authenticated.Once.{accepted-once, reads_late}
use fabric_fs.Protocol.OperationSpec.Types.{open_response}
use fabric_fs.Transport.Delivering.{
  Call, publish_invalidation, response_returns_backend_handle,
  response_handles_require_cleanup_after_deadline, fail_if_response_deadline_expired,
  publish_invalidations, deliver_prepared_response,
}
use fabric_fs.Transport.Delivering.Order.{
  delivered, delivered-releases, delivered-replied, releases, is_reply,
}
use fabric_fs.Transport.NamespaceLocks.{
  NamespaceLocks, no_guards, enter, unlocked, entered, IsExclusive, Reached-IsExclusive,
}
use fabric_fs.Transport.Retry.{can_retry_after_publish_error, retry-repeatable, repeatable}

abbrev no_path : List ℕ
no_path = []

abbrev own : Invalidation
own = record {
  namespace = "home";
  sequence = 3;
  kind = 2;
  path = no_path;
  old_path = no_path;
  new_path = no_path;
  inode = 2;
  handle = 0;
  request_id = "r1";
}

abbrev one_pending : OwnInvalidationReplay
one_pending = begin start "r1"

one_pending-Reached : Reached one_pending
one_pending-Reached = began start "r1" at_start

is_fresh : contains one_pending.completed "r1" ≡ false
unfolding start begin contains without
is_fresh = refl

is_pending : contains one_pending.pending "r1" ≡ true
unfolding start begin contains add
is_pending = refl

Reached-IsBounded_example : IsBounded one_pending
Reached-IsBounded_example = Reached-IsBounded one_pending one_pending-Reached

abandon-handle_invalidation_example :
    ((handle_invalidation one_pending own).1 ≡ none)
    × ((abandon (handle_invalidation one_pending own).0 "r1").recovered
        ≡ (abandon one_pending "r1").recovered ++ own ∷ [])
abandon-handle_invalidation_example =
    abandon-handle_invalidation one_pending own refl is_fresh is_pending

handle_invalidation-complete_example :
    handle_invalidation (complete one_pending "r1") own ≡ (complete one_pending "r1", none)
handle_invalidation-complete_example =
    handle_invalidation-complete one_pending own one_pending-Reached refl

abbrev abandoned_one : OwnInvalidationReplay
abandoned_one = abandon (handle_invalidation one_pending own).0 "r1"

-- A response to an open with one invalidation and the deadline 100: the reply goes out at 40, and it is
-- 120 after that.
abbrev delivery : List Call × Result ℕ (Unit {0})
delivery =
    delivered 7 true (some open_response) 100 (λ v. ok tt) (ok tt) (ok tt) (λ e. e) (own ∷ []) 40
      120

is_replied : any is_reply delivery.0 ≡ true
unfolding deliver_prepared_response publish_invalidations fail_if_response_deadline_expired
    response_handles_require_cleanup_after_deadline response_returns_backend_handle any
is_replied = refl

is_late : delivery.1 ≡ err 7
unfolding deliver_prepared_response publish_invalidations fail_if_response_deadline_expired
    response_handles_require_cleanup_after_deadline response_returns_backend_handle
is_late = refl

delivered-releases_example : any releases delivery.0 ≡ not (is_ok delivery.1)
delivered-releases_example =
    delivered-releases 7 true (some open_response) 100 (λ v. ok tt) (ok tt) (ok tt) (λ e. e)
      (own ∷ []) 40 120

delivered-replied_example :
    (rest : List Call) × (delivery.0 ≡ map publish_invalidation (own ∷ []) ++ rest)
delivered-replied_example =
    delivered-replied 7 true (some open_response) 100 (λ v. ok tt) (ok tt) (ok tt) (λ e. e)
      (own ∷ []) 40 120 is_replied

-- One thread is in the namespace `home`.
abbrev one_guard : NamespaceLocks
one_guard = record { active = "home" ∷ []; guards = "home" ∷ [] }

enters : enter no_guards "home" ≡ some one_guard
unfolding enter no_guards contains add without
enters = refl

waits : enter one_guard "home" ≡ none
unfolding enter contains
waits = refl

Reached-IsExclusive_example : IsExclusive one_guard
Reached-IsExclusive_example =
    Reached-IsExclusive one_guard (entered no_guards one_guard "home" unlocked enters)

abbrev local : LocalClient ℕ Kept Framed
local = record {
  dispatcher = counting_dispatcher;
  prost = kept_prost;
  mode = serialized;
  max_frame_bytes = 1000;
}

abbrev connected : LocalState ℕ
connected = record { served = nothing_made; connected = true }

abbrev made : ResponseEnvelope
made =
    (dispatch counting_dispatcher 1 nothing_made mkdir_request (for_request mkdir_request 100 1)).1

mkdir_encoded : (bytes : Framed) × (encode_request kept_prost mkdir_request ≡ ok bytes)
mkdir_encoded =
    encode_request-total kept_prost kept_laws mkdir_request (unfold Example.program in refl)

made_encoded : (bytes : Framed) × (encode_response kept_prost made ≡ ok bytes)
made_encoded = encode_response-total kept_prost kept_laws made (
    dispatch-valid counting_dispatcher 1 nothing_made mkdir_request
      (for_request mkdir_request 100 1))

call_serialized-dispatch_example : call_serialized local 1 connected mkdir_request ≡ (
  record connected {
    served =
        (dispatch counting_dispatcher 1 nothing_made mkdir_request
          (for_request mkdir_request 100 1)).0;
  },
  ok made,
)
call_serialized-dispatch_example =
    call_serialized-dispatch local kept_laws 1 connected mkdir_request mkdir_encoded.0
      made_encoded.0 refl mkdir_encoded.1 refl made_encoded.1 refl

retry-repeatable_example :
    can_retry_after_publish_error Operation.«open» 0 3
    ≡ some (any (same_operation Operation.«open») repeatable && ltb 1 3)
retry-repeatable_example = retry-repeatable Operation.«open» 0 3

-- An open is not sent again.
open_once : can_retry_after_publish_error Operation.«open» 0 3 ≡ some false
unfolding same_operation discriminant any
open_once = retry-repeatable Operation.«open» 0 3

-- A request with the deadline 100 that arrives at 40, when the monotonic clock shows 1000.
abbrev first_arrival : Arrival
first_arrival = record {
  deadline = 100;
  token = "token";
  now = 40;
  t0 = 1000;
  t1 = 1000;
  t2 = 1000;
}

-- Another one in between, and the first again at 60.
abbrev other_arrival : Arrival
other_arrival = record { deadline = 90; token = "other"; now = 50; t0 = 1010; t1 = 1010; t2 = 1010 }

abbrev second_arrival : Arrival
second_arrival = record {
  deadline = 100;
  token = "token";
  now = 60;
  t0 = 1020;
  t1 = 1020;
  t2 = 1020;
}

gets_through : (arrive [] 300 first_arrival).1 ≡ none
unfolding authenticated_replay_or_expiry_response claim discard_expired Map.get Map.filter_map
gets_through = refl

in_time : any (reads_late 1060) (other_arrival ∷ []) ≡ false
unfolding any
in_time = refl

accepted-once_example :
    (arrive
      (arrive_all (arrive [] 300 first_arrival).0 300 (other_arrival ∷ []))
      300
      second_arrival).1
    ≢ none
accepted-once_example =
    accepted-once [] 300 first_arrival second_arrival (other_arrival ∷ []) gets_through refl in_time
      refl
