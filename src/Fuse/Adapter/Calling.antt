-- ===== src/Fuse/Adapter/Calling.antt =====
-- fs-fuse/src/lib.rs: one call of the server, with what it does to the cache, and the draining of the
-- invalidations that came from other clients.
use Prim.Native.String.{◌++◌ as text_append}
use fabric_fs.Prelude.{
  ℕ, String, Bool, true, false, Option, none, some, List, [], ◌∷◌, Result, ok, err,
}
use fabric_fs.Protocol.Error.{ProtocolError}
use fabric_fs.Protocol.Errno.{Errno, io}
use fabric_fs.Protocol.Path.{validate_path_value}
use fabric_fs.Protocol.Messages.{default_trace, CallerContext, FileAttr}
use fabric_fs.Protocol.Operation.{Operation}
use fabric_fs.Protocol.Invalidation.{Invalidation}
use fabric_fs.Protocol.RequestPayload.{RequestPayload}
use fabric_fs.Protocol.ResponsePayload.{ResponsePayload}
use fabric_fs.Protocol.RequestEnvelope
use fabric_fs.Protocol.RequestEnvelope.{RequestEnvelope}
use fabric_fs.Protocol.ResponseEnvelope
use fabric_fs.Protocol.ResponseEnvelope.{ResponseEnvelope}
use fabric_fs.Core.Dispatcher.{RpcError, rpc_errno}
use fabric_fs.Fuse.Cache
use fabric_fs.Fuse.Cache.{
  FuseError, stale_cache, protocol, protocol_text, unexpected_payload, response, transport,
}
use fabric_fs.Fuse.Kernel.{
  CacheKernel, apply_invalidation, apply_success_response_invalidation, poisoned_kernel,
  path_for_handle_bound_call,
}
use fabric_fs.Fuse.Covering
use fabric_fs.Fuse.Adapter.State.{
  FuseAdapter, AdapterState, AdapterMetrics, Adapt, fetch_add, ◌>>=◌, ◌>>◌, succeed, fail, lift,
  read_kernel, change_kernel, count_metrics, fuse_request_id,
}

-- The texts of `RpcError`.
unfoldable pub rpc_text : RpcError → String
rpc_text RpcError.connection_closed = "transport closed"
rpc_text RpcError.frame_too_large = "frame exceeded transport limit"
rpc_text RpcError.timeout = "request timed out"
rpc_text (RpcError.malformed text) = text_append "malformed message: " text
rpc_text (RpcError.transport text) = text_append "transport failed: " text

unfoldable pub map_transport_error : RpcError → FuseError
map_transport_error error = transport (rpc_errno error) (rpc_text error)

abbrev pub to_fuse : {A : Type 0} → Result ProtocolError A → Result FuseError A
to_fuse (ok a) = ok a
to_fuse (err e) = err (protocol e)

-- `path_dto`: a path that the protocol accepts.
abbrev pub if_valid : List ℕ → Result ProtocolError (Unit {0}) → Result FuseError (List ℕ)
if_valid path (ok _) = ok path
if_valid path (err e) = err (protocol e)

unfoldable pub path_dto : List ℕ → Result FuseError (List ℕ)
path_dto path = if_valid path (validate_path_value path)

abbrev pub some_payload : Option ResponsePayload → Result FuseError ResponsePayload
some_payload (some payload) = ok payload
some_payload none = err (protocol_text "successful response missing payload")

unfoldable pub take_payload : ResponseEnvelope → Result FuseError ResponsePayload
take_payload r = some_payload r.payload

unfoldable pub required_attr : Option FileAttr → Operation → Result FuseError FileAttr
required_attr (some attr) operation = ok attr
required_attr none operation = err (unexpected_payload operation)

-- What a batch has for an error after one more of its invalidations: a full resync makes up for the
-- failures before it.
abbrev pub batch_error_after : Result FuseError Bool → Option FuseError → Option FuseError
batch_error_after (ok true) e = none
batch_error_after (ok false) e = e
batch_error_after (err x) (some e) = some e
batch_error_after (err x) none = some x

unfoldable pub apply_batch :
    CacheKernel → String → List Invalidation → Option FuseError → CacheKernel × Option FuseError
apply_batch k namespace [] e = (k, e)
apply_batch k namespace (v ∷ rest) e =
    apply_batch (apply_invalidation k namespace v true).0 namespace rest
      (batch_error_after (apply_invalidation k namespace v true).1 e)

-- The loop over the invalidations of a success, which `?` leaves.
abbrev pub applied_all :
    CacheKernel → String → List Invalidation → CacheKernel × Result FuseError (Unit {0})
applied_all k namespace [] = (k, ok tt)
applied_all k namespace (v ∷ rest) =
    let next = applied_all (apply_success_response_invalidation k namespace v).0 namespace rest in
    elim (apply_success_response_invalidation k namespace v).1 [
      | ok _ ↦ next
      | err e ↦ ((apply_success_response_invalidation k namespace v).0, err e)
    ]

abbrev pub counting_drain : AdapterMetrics → AdapterMetrics
counting_drain m = record m { invalidation_drains_total = fetch_add m.invalidation_drains_total }

abbrev pub counting_drain_error : AdapterMetrics → AdapterMetrics
counting_drain_error m = record m {
  invalidation_errors_total = fetch_add m.invalidation_errors_total;
}

abbrev pub counting_poison : AdapterMetrics → AdapterMetrics
counting_poison m = record m { cache_poison_total = fetch_add m.cache_poison_total }

abbrev pub counting_call : AdapterMetrics → AdapterMetrics
counting_call m = record m { calls_total = fetch_add m.calls_total }

abbrev pub counting_failure : AdapterMetrics → AdapterMetrics
counting_failure m = record m { call_failures = fetch_add m.call_failures }

abbrev pub counting_stale : AdapterMetrics → AdapterMetrics
counting_stale m = record m { stale_cache_total = fetch_add m.stale_cache_total }

-- A step of the cache that may fail.
abbrev pub with_kernel :
    {C A : Type 0}
    → AdapterState C
    → CacheKernel × Result FuseError A
    → AdapterState C × Result FuseError A
with_kernel s (k, r) = (record s { kernel = k }, r)

abbrev pub kernel_step :
    {C A : Type 0} → (CacheKernel → CacheKernel × Result FuseError A) → Adapt C A
kernel_step f = λ s. with_kernel s (f s.kernel)

-- `poison_cache`
unfoldable pub poison_cache : {C : Type 0} → Adapt C (Unit {0})
poison_cache = count_metrics counting_poison >> change_kernel poisoned_kernel

abbrev pub count_if_poisoned : {C : Type 0} → Bool → Adapt C (Unit {0})
count_if_poisoned true = count_metrics counting_poison
count_if_poisoned false = succeed tt

unfoldable pub poison_cache_after_uncertain_path_mutation :
    {C : Type 0} → RequestEnvelope → Adapt C (Unit {0})
poison_cache_after_uncertain_path_mutation request =
    kernel_step (λ k. (
      (Covering.poison_after_uncertain_path_mutation k request).0,
      ok (Covering.poison_after_uncertain_path_mutation k request).1,
    ))
    >>= count_if_poisoned

abbrev pub count_stale :
    {C : Type 0}
    → AdapterState C × Result FuseError (Unit {0})
    → AdapterState C × Result FuseError (Unit {0})
count_stale (s, ok _) = (s, ok tt)
count_stale (s, err stale_cache) =
    (record s { metrics = counting_poison s.metrics }, err stale_cache)
count_stale (s, err e) = (s, err e)

unfoldable pub require_covering_path_invalidation :
    {C : Type 0} → RequestEnvelope → ResponseEnvelope → Adapt C (Unit {0})
require_covering_path_invalidation request r =
    λ s. count_stale (kernel_step (λ k. Covering.require_covering_path_invalidation k request r) s)

-- The end of a drain: the first error that no full resync made up for.
abbrev pub drain_result : {C : Type 0} → Option FuseError → Adapt C (Unit {0})
drain_result none = succeed tt
drain_result (some e) = count_metrics counting_drain_error >> fail e

abbrev pub drained :
    {C : Type 0} → String → Result RpcError (List Invalidation) → Adapt C (Unit {0})
drained namespace (err e) = do
  count_metrics counting_drain_error
  poison_cache
  fail (map_transport_error e)
drained namespace (ok invalidations) =
    kernel_step (λ k. (
      (apply_batch k namespace invalidations none).0,
      ok (apply_batch k namespace invalidations none).1,
    ))
    >>= drain_result

abbrev pub ask_drain : {C : Type 0} → FuseAdapter C → Adapt C (Result RpcError (List Invalidation))
ask_drain a = λ s. (
  record s { connection = (a.client.drain_invalidations s.connection a.namespace).0 },
  ok (a.client.drain_invalidations s.connection a.namespace).1,
)

unfoldable pub drain_remote_invalidations : {C : Type 0} → FuseAdapter C → Adapt C (Unit {0})
drain_remote_invalidations a = do
  count_metrics counting_drain
  invalidations ← ask_drain a
  drained a.namespace invalidations

abbrev pub ask_server :
    {C : Type 0} → FuseAdapter C → RequestEnvelope → Adapt C (Result RpcError ResponseEnvelope)
ask_server a request = λ s. (
  record s { connection = (a.client.call_server s.connection request).0 },
  ok (a.client.call_server s.connection request).1,
)

-- A call whose outcome is not known, or not understood.
abbrev pub give_up : {C A : Type 0} → RequestEnvelope → FuseError → Adapt C A
give_up request e = do
  count_metrics counting_failure
  poison_cache_after_uncertain_path_mutation request
  fail e

abbrev pub accept_success :
    {C : Type 0}
    → FuseAdapter C
    → RequestEnvelope
    → ResponseEnvelope
    → Result ProtocolError (Unit {0})
    → Adapt C ResponseEnvelope
accept_success a request r (err e) = give_up request (protocol e)
accept_success a request r (ok _) = do
  kernel_step (λ k. applied_all k a.namespace r.invalidations)
  require_covering_path_invalidation request r
  succeed r

abbrev pub errno_or_io : Option Errno → Errno
errno_or_io none = io
errno_or_io (some e) = e

abbrev pub accept_failure :
    {C : Type 0}
    → RequestEnvelope
    → ResponseEnvelope
    → Result ProtocolError (Unit {0})
    → Adapt C ResponseEnvelope
accept_failure request r (err e) = give_up request (protocol e)
accept_failure request r (ok _) = do
  count_metrics counting_failure
  fail (response (errno_or_io r.errno) r.error_message)

abbrev pub accept_ok :
    {C : Type 0}
    → FuseAdapter C
    → RequestEnvelope
    → ResponseEnvelope
    → Bool
    → Adapt C ResponseEnvelope
accept_ok a request r true =
    accept_success a request r
      (ResponseEnvelope.validate_identity_and_payload_for_request r request)
accept_ok a request r false =
    accept_failure request r (ResponseEnvelope.validate_for_request r request)

abbrev pub accept :
    {C : Type 0}
    → FuseAdapter C
    → RequestEnvelope
    → Result RpcError ResponseEnvelope
    → Adapt C ResponseEnvelope
accept a request (err e) = give_up request (map_transport_error e)
accept a request (ok r) = accept_ok a request r r.is_success

-- `fetch_add` gives the number before.
abbrev pub take_request_id : {C : Type 0} → Adapt C ℕ
take_request_id =
    λ s. (record s { next_request_id = fetch_add s.next_request_id }, ok s.next_request_id)

abbrev pub active_caller_context : {C : Type 0} → Adapt C (Option CallerContext)
active_caller_context = λ s. (s, ok s.caller)

abbrev pub refuse_stale : {C : Type 0} → Bool → Bool → Adapt C (Unit {0})
refuse_stale true true = count_metrics counting_stale >> fail stale_cache
refuse_stale true false = succeed tt
refuse_stale false poisoned = succeed tt

abbrev pub drain_if : {C : Type 0} → FuseAdapter C → Bool → Adapt C (Unit {0})
drain_if a true = drain_remote_invalidations a
drain_if a false = succeed tt

unfoldable pub call_with_cache_policy :
    {C : Type 0} → FuseAdapter C → RequestPayload → Bool → Bool → Adapt C ResponseEnvelope
call_with_cache_policy a payload require_healthy_cache drain_before_call = do
  count_metrics counting_call
  drain_if a drain_before_call
  poisoned ← read_kernel (λ k. ok k.cache.poisoned)
  refuse_stale require_healthy_cache poisoned
  request_id ← take_request_id
  request ← lift (
      to_fuse
        (RequestEnvelope.new (fuse_request_id request_id) a.namespace 0 default_trace payload))
  caller ← active_caller_context
  answer ← ask_server a (record request { caller = caller })
  accept a (record request { caller = caller }) answer

unfoldable pub call : {C : Type 0} → FuseAdapter C → RequestPayload → Adapt C ResponseEnvelope
call a payload = call_with_cache_policy a payload true false

unfoldable pub call_handle_bound :
    {C : Type 0} → FuseAdapter C → RequestPayload → Adapt C ResponseEnvelope
call_handle_bound a payload = call_with_cache_policy a payload false false

unfoldable pub call_release :
    {C : Type 0} → FuseAdapter C → RequestPayload → Adapt C ResponseEnvelope
call_release a payload = call_with_cache_policy a payload false false

-- Readings of the cache after a drain.
unfoldable pub path_for_inode : {C : Type 0} → FuseAdapter C → ℕ → Adapt C (List ℕ)
path_for_inode a inode =
    drain_remote_invalidations a >> read_kernel (λ k. Cache.path_for_inode k.cache inode)

unfoldable pub path_for_handle : {C : Type 0} → FuseAdapter C → ℕ → ℕ → Adapt C (List ℕ)
path_for_handle a inode handle =
    drain_remote_invalidations a >> read_kernel (λ k. path_for_handle_bound_call k inode handle)

unfoldable pub child_path : {C : Type 0} → FuseAdapter C → ℕ → List ℕ → Adapt C (List ℕ)
child_path a parent name =
    drain_remote_invalidations a >> read_kernel (λ k. Cache.child_path k.cache parent name)
