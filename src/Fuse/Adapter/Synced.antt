-- ===== src/Fuse/Adapter/Synced.antt =====
-- fs-fuse/src/lib.rs, `call_with_cache_policy`, over fs-transport-local/src/lib.rs and
-- fs-core/src/lib.rs: a client that is alone with its server stays up to date.
use fabric_fs.Prelude.{two_pow_64}
use fabric_fs.Prelude.{
  ℕ, ◌+◌, ◌<◌, ◌≡◌, refl, sym, ap, Bool, true, false, Option, String, Result, ok, err, ok-seq,
  ok-injective, ◌>>◌ as then_result,
}
use mathlib.Core.Path.{subst}
use fabric_fs.Protocol.Error.{ProtocolError}
use fabric_fs.Protocol.Messages.{CallerContext, default_trace}
use fabric_fs.Protocol.RequestPayload
use fabric_fs.Protocol.RequestPayload.{RequestPayload}
use fabric_fs.Protocol.RequestEnvelope
use fabric_fs.Protocol.RequestEnvelope.{RequestEnvelope, validate_identity}
use fabric_fs.Protocol.ResponseEnvelope
use fabric_fs.Protocol.ResponseEnvelope.{ResponseEnvelope, failure_for, success_envelope}
use fabric_fs.Protocol.ResponseEnvelope.Answers.{failure_for-answers, success_envelope-answers}
use fabric_fs.Core.Service.{for_request}
use fabric_fs.Core.Invalidating.{Sequences, next_of, invalidations_for_success}
use fabric_fs.Core.Invalidating.Counting.{invalidations_for_success-valid}
use fabric_fs.Core.Dispatcher.{Dispatcher, dispatch}
use fabric_fs.Core.Dispatcher.Answering.{Outcome, failed, delivered, dispatch-Outcome}
use fabric_fs.Fuse.Covering
use fabric_fs.Protocol.Codec.{Prost}
use fabric_fs.Transport.Local.{LocalState, direct, local_client, as_client, call_direct, call}
use fabric_fs.Fuse.Adapter.State.{
  FuseAdapter, AdapterState, Adapt, ◌>>=◌, go_on, lift, fuse_request_id,
}
use fabric_fs.Fuse.Adapter.Calling.{
  to_fuse, active_caller_context, take_request_id, counting_call, refuse_stale, ask_server, accept,
  accept_ok, applied_all, require_covering_path_invalidation, call_with_cache_policy,
}
use fabric_fs.Fuse.Adapter.Serving.{InSync, Outcome-InSync, Outcome-covered}

accept_ok-failed :
    {C : Type 0} (a : FuseAdapter C) (s : AdapterState C) (request : RequestEnvelope)
    (r : ResponseEnvelope)
    → ResponseEnvelope.validate_for_request r request ≡ ok tt
    → ((accept_ok a request r false s).0.kernel ≡ s.kernel)
      × ((accept_ok a request r false s).0.connection ≡ s.connection)
accept_ok-failed a s request r h = rw h (refl, refl)

validate-identity :
    (r : ResponseEnvelope) (request : RequestEnvelope)
    → ResponseEnvelope.validate_for_request r request ≡ ok tt
    → ResponseEnvelope.validate_identity_and_payload_for_request r request ≡ ok tt
unfolding ResponseEnvelope.validate_for_request
validate-identity r request h =
    (ok-seq (ResponseEnvelope.validate_identity_and_payload_for_request r request) _ _ h).0

accept_ok-delivered :
    {C : Type 0} (a : FuseAdapter C) (s : AdapterState C) (request : RequestEnvelope)
    (r : ResponseEnvelope)
    → ResponseEnvelope.validate_for_request r request ≡ ok tt
    → (applied_all s.kernel a.namespace r.invalidations).1 ≡ ok tt
    → Covering.require_covering_path_invalidation
        (applied_all s.kernel a.namespace r.invalidations).0
        request
        r
      ≡ ((applied_all s.kernel a.namespace r.invalidations).0, ok tt)
    → ((accept_ok a request r true s).0.kernel
        ≡ (applied_all s.kernel a.namespace r.invalidations).0)
      × ((accept_ok a request r true s).0.connection ≡ s.connection)
unfolding require_covering_path_invalidation
accept_ok-delivered a s request r h applied covered =
    rw (validate-identity r request h, applied, covered) (refl, refl)

-- Over one answer of the dispatcher, the adapter's cache comes to where the dispatcher's counters are.
accept-InSync :
    {C : Type 0} (a : FuseAdapter C) (s : AdapterState C) (request : RequestEnvelope)
    (before : Sequences) (r : Sequences × ResponseEnvelope)
    → RequestEnvelope.validate request ≡ ok tt
    → request.namespace ≡ a.namespace
    → Outcome request before r
    → next_of before request.namespace + 1 < two_pow_64
    → InSync s.kernel before request.namespace
    → InSync (accept a request (ok r.1) s).0.kernel r.0 request.namespace
      × ((accept a request (ok r.1) s).0.connection ≡ s.connection)
unfolding failure_for
accept-InSync a s request before r valid own (failed errno message) bound sync =
    let (same, kept) =
      accept_ok-failed a s request (failure_for request errno message)
        (failure_for-answers request errno message valid) in
    (subst (λ k. InSync k before request.namespace) (sym same) sync, kept)
accept-InSync a s request before r valid own (delivered payload v fits) bound sync =
    let invalidations = (invalidations_for_success before request payload).1 in
    let (applied, at) = Outcome-InSync s.kernel (delivered payload v fits) bound sync in
    let after = (invalidations_for_success before request payload).0 in
    let answers =
      success_envelope-answers request payload invalidations v fits
        (invalidations_for_success-valid before request payload v) in
    let applied' : (applied_all s.kernel a.namespace invalidations).1 ≡ ok tt =
      subst (λ n. (applied_all s.kernel n invalidations).1 ≡ ok tt) own applied in
    let at' : InSync (applied_all s.kernel a.namespace invalidations).0 after request.namespace =
      subst (λ n. InSync (applied_all s.kernel n invalidations).0 after request.namespace) own at in
    let (same, kept) =
      accept_ok-delivered a s request (success_envelope request payload invalidations) answers
        applied' (Outcome-covered _ (delivered payload v fits)) in
    (subst (λ k. InSync k after request.namespace) (sym same) at', kept)

new-named :
    (request_id namespace : String) (payload : RequestPayload) (request : RequestEnvelope)
    → RequestEnvelope.new request_id namespace 0 default_trace payload ≡ ok request
    → (RequestEnvelope.validate request ≡ ok tt) × (request.namespace ≡ namespace)
unfolding RequestEnvelope.new
new-named request_id namespace payload request h =
    let e = RequestEnvelope.new_envelope request_id namespace 0 default_trace payload in
    let (made, rest) =
      ok-seq (RequestPayload.validate payload) (then_result (RequestEnvelope.validate e) (ok e))
        request h in
    let (valid, same) = ok-seq (RequestEnvelope.validate e) (ok e) request rest in
    let at : e ≡ request = ok-injective same in
    (subst (λ x. RequestEnvelope.validate x ≡ ok tt) at valid, ap (λ x. x.namespace) (sym at))

caller-valid :
    (request : RequestEnvelope) (caller : Option CallerContext)
    → RequestEnvelope.validate request ≡ ok tt
    → RequestEnvelope.validate (record request { caller = caller }) ≡ ok tt
unfolding RequestEnvelope.validate validate_identity
caller-valid request caller h = h

module _ {S P E : Type 0} (d : Dispatcher S) (prost : Prost P E) (now : ℕ)
    (namespace : String) where
  -- An adapter whose connection is the dispatcher itself.
  abbrev pub local_adapter : FuseAdapter (LocalState S)
  local_adapter = record {
    client = as_client (local_client d prost direct) now;
    namespace = namespace;
  }

  -- The client and its server agree.
  abbrev pub Agree : AdapterState (LocalState S) → Type 0
  Agree s = InSync s.kernel s.connection.served.sequences namespace

  ask-Agree :
      (s : AdapterState (LocalState S)) (request : RequestEnvelope)
      → s.connection.connected ≡ true
      → RequestEnvelope.validate request ≡ ok tt
      → request.namespace ≡ namespace
      → next_of s.connection.served.sequences namespace + 1 < two_pow_64
      → Agree s
      → Agree ((ask_server local_adapter request >>= accept local_adapter request) s).0
  unfolding call_direct call as_client local_client
  ask-Agree s request connected valid own bound sync = rw connected (
      let before = s.connection.served.sequences in
      let answer = dispatch d now s.connection.served request (for_request request 0 now) in
      let s' : AdapterState (LocalState S) = record s {
        connection = record { served = answer.0; connected = true };
      } in
      let outcome =
        dispatch-Outcome d now s.connection.served request (for_request request 0 now) in
      let (at, kept) =
        accept-InSync local_adapter s' request before (answer.0.sequences, answer.1) valid own
          outcome (rw own bound) (subst (λ n. InSync s.kernel before n) (sym own) sync) in
      let after = accept local_adapter request (ok answer.1) s' in
      subst
        (λ (connection : LocalState S). InSync after.0.kernel connection.served.sequences namespace)
        (sym kept) (subst (λ n. InSync after.0.kernel answer.0.sequences n) own at))

  -- The call after its checks of the cache.
  abbrev send : Result ProtocolError RequestEnvelope → Adapt (LocalState S) ResponseEnvelope
  send r = do
    request ← lift (to_fuse r)
    caller ← active_caller_context
    answer ← ask_server local_adapter (record request { caller = caller })
    accept local_adapter (record request { caller = caller }) answer

  send-Agree :
      (s : AdapterState (LocalState S)) (request_id : String) (payload : RequestPayload)
      (r : Result ProtocolError RequestEnvelope)
      → RequestEnvelope.new request_id namespace 0 default_trace payload ≡ r
      → s.connection.connected ≡ true
      → next_of s.connection.served.sequences namespace + 1 < two_pow_64
      → Agree s
      → Agree (send r s).0
  send-Agree s request_id payload (err e) h connected bound sync = sync
  send-Agree s request_id payload (ok request) h connected bound sync =
      let (valid, own) = new-named request_id namespace payload request h in
      ask-Agree s (record request { caller = s.caller }) connected
        (caller-valid request s.caller valid) own bound sync

  -- An adapter that calls the dispatcher directly, and whose cache is in order and has seen every number
  -- that its namespace counted, is like that again after a call that does not drain first, whatever is
  -- called and however it ends, while the connection is up and the counter is below the largest u64.
  pub call-Agree :
      (s : AdapterState (LocalState S)) (payload : RequestPayload) (require_healthy_cache : Bool)
      → s.connection.connected ≡ true
      → next_of s.connection.served.sequences namespace + 1 < two_pow_64
      → Agree s
      → Agree (call_with_cache_policy local_adapter payload require_healthy_cache false s).0
  unfolding call_with_cache_policy
  call-Agree s payload require_healthy_cache connected bound sync =
      by_health require_healthy_cache s.kernel.cache.poisoned
    where
      counted : AdapterState (LocalState S)
      counted = record s { metrics = counting_call s.metrics }

      by_health :
          (healthy poisoned : Bool)
          → Agree
              (go_on
                (λ _. take_request_id >>= λ request_id. send (
                  RequestEnvelope.new
                    (fuse_request_id request_id)
                    namespace
                    0
                    default_trace
                    payload))
                (refuse_stale healthy poisoned counted)).0
      by_health true true = sync
      by_health true false =
          send-Agree _ (fuse_request_id s.next_request_id) payload _ refl connected bound sync
      by_health false poisoned =
          send-Agree _ (fuse_request_id s.next_request_id) payload _ refl connected bound sync
