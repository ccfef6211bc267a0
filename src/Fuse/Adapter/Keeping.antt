-- ===== src/Fuse/Adapter/Keeping.antt =====
-- fs-fuse/src/lib.rs: whatever the server answers, a call of the adapter leaves the cache consistent.
pub mod NodeCalls
pub mod HandleCalls
use fabric_fs.Prelude.{
  ℕ, ◌≡◌, refl, sym, ap, ◌∙◌, Bool, true, false, Option, none, some, List, [], ◌∷◌, String,
  if◌then◌else◌, Result, ok, err, any,
}
use fabric_fs.Prelude.Map
use fabric_fs.Protocol.Error.{ProtocolError}
use fabric_fs.Protocol.Invalidation.{Invalidation}
use fabric_fs.Protocol.RequestPayload.{RequestPayload}
use fabric_fs.Protocol.ResponsePayload.{ResponsePayload}
use fabric_fs.Protocol.Messages.{default_trace}
use fabric_fs.Protocol.RequestEnvelope
use fabric_fs.Protocol.RequestEnvelope.{RequestEnvelope}
use fabric_fs.Protocol.ResponseEnvelope
use fabric_fs.Protocol.ResponseEnvelope.{ResponseEnvelope}
use fabric_fs.Core.Dispatcher.{RpcError}
use fabric_fs.Fuse.Cache
use fabric_fs.Fuse.Cache.{PathCache, FuseError}
use fabric_fs.Fuse.Cache.Consistent.{
  IsConsistent, maps, lists, insert-IsConsistent, poison-IsConsistent,
}
use fabric_fs.Fuse.Kernel
use fabric_fs.Fuse.Kernel.{
  CacheKernel, apply_invalidation, apply_success_response_invalidation, poisoned_kernel,
  path_for_handle_bound_call,
}
use fabric_fs.Fuse.Kernel.Sequence.{apply_invalidation-IsConsistent}
use fabric_fs.Fuse.Covering
use fabric_fs.Fuse.Adapter.State.{
  FuseAdapter, AdapterState, Adapt, AdapterMetrics, ◌>>=◌, ◌>>◌, go_on, succeed, fail, lift,
  read_kernel, change_kernel, count_metrics, fuse_request_id,
}
use fabric_fs.Fuse.Adapter.Calling.{
  map_transport_error, errno_or_io, counting_drain_error, counting_failure, counting_stale,
  batch_error_after, to_fuse, counting_drain, counting_call, take_payload, apply_batch, applied_all,
  with_kernel, kernel_step, poison_cache, count_if_poisoned,
  poison_cache_after_uncertain_path_mutation, count_stale, require_covering_path_invalidation,
  drain_result, drained, ask_drain, drain_remote_invalidations, ask_server, give_up, accept_success,
  accept_failure, accept_ok, accept, take_request_id, active_caller_context, refuse_stale, drain_if,
  call_with_cache_policy, call, call_handle_bound, call_release, path_for_inode, path_for_handle,
  child_path,
}

-- A step that leaves a consistent cache consistent, whether it fails or not.
pub record Keeps {C A : Type 0} (m : Adapt C A) : Type 0 where
  pub keeps : (s : AdapterState C) → IsConsistent s.kernel.cache → IsConsistent (m s).0.kernel.cache

pub bind-Keeps :
    {C A B : Type 0} {m : Adapt C A} {f : A → Adapt C B}
    → Keeps m
    → ((a : A) → Keeps (f a))
    → Keeps (m >>= f)
bind-Keeps {C} {A} {B} {m} {f} k h = record { keeps = λ s c. on (m s) (k.keeps s c) }
  where
    on :
        (r : AdapterState C × Result FuseError A)
        → IsConsistent r.0.kernel.cache
        → IsConsistent (go_on f r).0.kernel.cache
    on (s, ok a) c = (h a).keeps s c
    on (s, err e) c = c

-- A step that leaves the kernel as it is.
pub still-Keeps :
    {C A : Type 0} (f : AdapterState C → AdapterState C) (r : AdapterState C → Result FuseError A)
    → ((s : AdapterState C) → (f s).kernel ≡ s.kernel)
    → Keeps (λ s. (f s, r s))
still-Keeps f r same = record { keeps = λ s c. rw (same s) c }

pub lift-Keeps : {C A : Type 0} (r : Result FuseError A) → Keeps {C = C} (lift r)
lift-Keeps r = record { keeps = λ s c. c }

pub read_kernel-Keeps :
    {C A : Type 0} (f : CacheKernel → Result FuseError A) → Keeps {C = C} (read_kernel f)
read_kernel-Keeps f = record { keeps = λ s c. c }

pub count_metrics-Keeps :
    {C : Type 0} (f : AdapterMetrics → AdapterMetrics) → Keeps {C = C} (count_metrics f)
count_metrics-Keeps f = record { keeps = λ s c. c }

pub change_kernel-Keeps :
    {C : Type 0} (f : CacheKernel → CacheKernel)
    → ((k : CacheKernel) → IsConsistent k.cache → IsConsistent (f k).cache)
    → Keeps {C = C} (change_kernel f)
change_kernel-Keeps f h = record { keeps = λ s c. h s.kernel c }

pub kernel_step-Keeps :
    {C A : Type 0} (f : CacheKernel → CacheKernel × Result FuseError A)
    → ((k : CacheKernel) → IsConsistent k.cache → IsConsistent (f k).0.cache)
    → Keeps {C = C} (kernel_step f)
kernel_step-Keeps f h = record { keeps = λ s c. h s.kernel c }

apply_batch-IsConsistent :
    (k : CacheKernel) (namespace : String) (invalidations : List Invalidation)
    (e : Option FuseError)
    → IsConsistent k.cache
    → IsConsistent (apply_batch k namespace invalidations e).0.cache
unfolding apply_batch
apply_batch-IsConsistent k namespace [] e c = c
apply_batch-IsConsistent k namespace (v ∷ rest) e c =
    apply_batch-IsConsistent (apply_invalidation k namespace v true).0 namespace rest
      (batch_error_after (apply_invalidation k namespace v true).1 e)
      (apply_invalidation-IsConsistent k namespace v true c)

applied-IsConsistent :
    (k : CacheKernel) (namespace : String) (v : Invalidation)
    → IsConsistent k.cache
    → IsConsistent (apply_success_response_invalidation k namespace v).0.cache
unfolding apply_success_response_invalidation
applied-IsConsistent k namespace v c = apply_invalidation-IsConsistent k namespace v false c

applied_all-IsConsistent :
    (k : CacheKernel) (namespace : String) (invalidations : List Invalidation)
    → IsConsistent k.cache
    → IsConsistent (applied_all k namespace invalidations).0.cache
applied_all-IsConsistent k namespace [] c = c
applied_all-IsConsistent k namespace (v ∷ rest) c =
    step (apply_success_response_invalidation k namespace v).1 (
      applied_all-IsConsistent (apply_success_response_invalidation k namespace v).0 namespace rest
        (applied-IsConsistent k namespace v c))
  where
    step :
        (r : Result FuseError (Unit {0}))
        → IsConsistent
            (applied_all
              (apply_success_response_invalidation k namespace v).0
              namespace
              rest).0.cache
        → IsConsistent
            (elim r as (λ _. CacheKernel × Result FuseError (Unit {0})) [
              | ok _ ↦
                  applied_all (apply_success_response_invalidation k namespace v).0 namespace rest
              | err e ↦ ((apply_success_response_invalidation k namespace v).0, err e)
            ]).0.cache
    step (ok u) after = after
    step (err e) after = applied-IsConsistent k namespace v c

uncertain-IsConsistent :
    (k : CacheKernel) (request : RequestEnvelope)
    → IsConsistent k.cache
    → IsConsistent (Covering.poison_after_uncertain_path_mutation k request).0.cache
unfolding Covering.poison_after_uncertain_path_mutation
uncertain-IsConsistent k request c =
    step (Covering.request_requires_path_invalidation request.payload)
  where
    after : Bool → CacheKernel × Bool
    after b = if b then (poisoned_kernel k, true) else (k, false)

    step : (b : Bool) → IsConsistent (after b).0.cache
    step true = poison-IsConsistent k.cache
    step false = c

covering-IsConsistent :
    (k : CacheKernel) (request : RequestEnvelope) (r : ResponseEnvelope)
    → IsConsistent k.cache
    → IsConsistent (Covering.require_covering_path_invalidation k request r).0.cache
unfolding Covering.require_covering_path_invalidation
covering-IsConsistent k request r c = by_payload r.payload
  where
    by_match : (b : Bool) → IsConsistent (Covering.poison_unless k b).0.cache
    by_match true = c
    by_match false = poison-IsConsistent k.cache

    by_required :
        (o : Option Covering.RequiredPathInvalidation)
        → IsConsistent (Covering.require_covering k request r.invalidations o).0.cache
    by_required none = c
    by_required (some required) = by_match (any (Covering.matches required request) r.invalidations)

    by_payload :
        (o : Option ResponsePayload)
        → IsConsistent (Covering.require_covering_payload k request r.invalidations o).0.cache
    by_payload none = c
    by_payload (some payload) =
        by_required (Covering.for_request_and_response request.payload payload)

module _ {C : Type 0} where
  poison_cache-Keeps : Keeps {C = C} poison_cache
  unfolding poison_cache
  poison_cache-Keeps =
      bind-Keeps (count_metrics-Keeps _)
        (λ u. change_kernel-Keeps poisoned_kernel (λ k c. poison-IsConsistent k.cache))

  uncertain-Keeps :
      (request : RequestEnvelope)
      → Keeps {C = C} (poison_cache_after_uncertain_path_mutation request)
  unfolding poison_cache_after_uncertain_path_mutation
  uncertain-Keeps request =
      bind-Keeps
        (kernel_step-Keeps
          (λ k. (
            (Covering.poison_after_uncertain_path_mutation k request).0,
            ok (Covering.poison_after_uncertain_path_mutation k request).1,
          ))
          (λ k c. uncertain-IsConsistent k request c))
        counted
    where
      counted : (b : Bool) → Keeps {C = C} (count_if_poisoned b)
      counted true = count_metrics-Keeps _
      counted false = lift-Keeps (ok tt)

  give_up-Keeps :
      {A : Type 0} (request : RequestEnvelope) (e : FuseError)
      → Keeps {C = C} (give_up {A = A} request e)
  give_up-Keeps request e =
      bind-Keeps (count_metrics-Keeps _)
        (λ u. bind-Keeps (uncertain-Keeps request) (λ v. lift-Keeps (err e)))

  covering-Keeps :
      (request : RequestEnvelope) (r : ResponseEnvelope)
      → Keeps {C = C} (require_covering_path_invalidation request r)
  unfolding require_covering_path_invalidation
  covering-Keeps request r = record {
    keeps = λ s c.
        counted (kernel_step (λ k. Covering.require_covering_path_invalidation k request r) s)
          (covering-IsConsistent s.kernel request r c);
  }
    where
      counted :
          (t : AdapterState C × Result FuseError (Unit {0}))
          → IsConsistent t.0.kernel.cache
          → IsConsistent (count_stale t).0.kernel.cache
      counted (s, ok u) c = c
      counted (s, err FuseError.stale_cache) c = c
      counted (s, err FuseError.empty_namespace) c = c
      counted (s, err e) c = c

  accept-Keeps :
      (a : FuseAdapter C) (request : RequestEnvelope) (r : Result RpcError ResponseEnvelope)
      → Keeps (accept a request r)
  accept-Keeps a request (err e) = give_up-Keeps request _
  accept-Keeps a request (ok r) = by_ok r.is_success
    where
      success : (v : Result ProtocolError (Unit {0})) → Keeps (accept_success a request r v)
      success (err e) = give_up-Keeps request (FuseError.protocol e)
      success (ok u) =
          bind-Keeps
            (kernel_step-Keeps (λ k. applied_all k a.namespace r.invalidations)
              (λ k c. applied_all-IsConsistent k a.namespace r.invalidations c))
            (λ u. bind-Keeps (covering-Keeps request r) (λ v. lift-Keeps (ok r)))

      failure : (v : Result ProtocolError (Unit {0})) → Keeps {C = C} (accept_failure request r v)
      failure (err e) = give_up-Keeps request (FuseError.protocol e)
      failure (ok u) =
          bind-Keeps (count_metrics-Keeps counting_failure)
            (λ v. lift-Keeps (err (FuseError.response (errno_or_io r.errno) r.error_message)))

      by_ok : (b : Bool) → Keeps (accept_ok a request r b)
      by_ok true = success (ResponseEnvelope.validate_identity_and_payload_for_request r request)
      by_ok false = failure (ResponseEnvelope.validate_for_request r request)

  ask_drain-Keeps : (a : FuseAdapter C) → Keeps (ask_drain a)
  ask_drain-Keeps a = record { keeps = λ s c. c }

  ask_server-Keeps : (a : FuseAdapter C) (request : RequestEnvelope) → Keeps (ask_server a request)
  ask_server-Keeps a request = record { keeps = λ s c. c }

  take_request_id-Keeps : Keeps {C = C} take_request_id
  take_request_id-Keeps = record { keeps = λ s c. c }

  active_caller_context-Keeps : Keeps {C = C} active_caller_context
  active_caller_context-Keeps = record { keeps = λ s c. c }

  pub drain-Keeps : (a : FuseAdapter C) → Keeps (drain_remote_invalidations a)
  unfolding drain_remote_invalidations
  drain-Keeps a =
      bind-Keeps (count_metrics-Keeps counting_drain) (λ u. bind-Keeps (ask_drain-Keeps a) answered)
    where
      result : (e : Option FuseError) → Keeps {C = C} (drain_result e)
      result none = lift-Keeps (ok tt)
      result (some e) =
          bind-Keeps (count_metrics-Keeps counting_drain_error) (λ u. lift-Keeps (err e))

      answered : (r : Result RpcError (List Invalidation)) → Keeps {C = C} (drained a.namespace r)
      answered (err e) =
          bind-Keeps (count_metrics-Keeps counting_drain_error)
            (λ u. bind-Keeps poison_cache-Keeps (λ v. lift-Keeps (err (map_transport_error e))))
      answered (ok invalidations) =
          bind-Keeps
            (kernel_step-Keeps
              (λ k. (
                (apply_batch k a.namespace invalidations none).0,
                ok (apply_batch k a.namespace invalidations none).1,
              ))
              (λ k c. apply_batch-IsConsistent k a.namespace invalidations none c))
            result

  policy-Keeps :
      (a : FuseAdapter C) (payload : RequestPayload) (healthy drain : Bool)
      → Keeps (call_with_cache_policy a payload healthy drain)
  unfolding call_with_cache_policy
  policy-Keeps a payload healthy drain = bind-Keeps (count_metrics-Keeps counting_call) (λ u.
      bind-Keeps (by_drain drain) (λ v.
        bind-Keeps (read_kernel-Keeps (λ k. ok k.cache.poisoned)) (λ poisoned.
          bind-Keeps (by_health healthy poisoned) (λ w.
            bind-Keeps take_request_id-Keeps (λ request_id.
              bind-Keeps
                (lift-Keeps (
                  to_fuse (
                    RequestEnvelope.new (fuse_request_id request_id) a.namespace 0 default_trace
                      payload)))
                (λ request. bind-Keeps active_caller_context-Keeps (λ caller.
                  bind-Keeps (ask_server-Keeps a (record request { caller = caller }))
                    (λ answer. accept-Keeps a (record request { caller = caller }) answer))))))))
    where
      by_drain : (b : Bool) → Keeps (drain_if a b)
      by_drain true = drain-Keeps a
      by_drain false = lift-Keeps (ok tt)

      by_health : (b p : Bool) → Keeps {C = C} (refuse_stale b p)
      by_health true true =
          bind-Keeps (count_metrics-Keeps counting_stale)
            (λ u. lift-Keeps (err FuseError.stale_cache))
      by_health true false = lift-Keeps (ok tt)
      by_health false p = lift-Keeps (ok tt)

  pub call-Keeps : (a : FuseAdapter C) (payload : RequestPayload) → Keeps (call a payload)
  unfolding call
  call-Keeps a payload = policy-Keeps a payload true false

  pub call_handle_bound-Keeps :
      (a : FuseAdapter C) (payload : RequestPayload) → Keeps (call_handle_bound a payload)
  unfolding call_handle_bound
  call_handle_bound-Keeps a payload = policy-Keeps a payload false false

  pub call_release-Keeps :
      (a : FuseAdapter C) (payload : RequestPayload) → Keeps (call_release a payload)
  unfolding call_release
  call_release-Keeps a payload = policy-Keeps a payload false false

  -- A reading of the cache after a drain.
  pub drained_read-Keeps :
      {A : Type 0} (a : FuseAdapter C) (f : CacheKernel → Result FuseError A)
      → Keeps (drain_remote_invalidations a >>= λ u. read_kernel f)
  drained_read-Keeps a f = bind-Keeps (drain-Keeps a) (λ u. read_kernel-Keeps f)

  pub path_for_inode-Keeps : (a : FuseAdapter C) (inode : ℕ) → Keeps (path_for_inode a inode)
  unfolding path_for_inode
  path_for_inode-Keeps a inode = drained_read-Keeps a (λ k. Cache.path_for_inode k.cache inode)

  pub path_for_handle-Keeps :
      (a : FuseAdapter C) (inode handle : ℕ) → Keeps (path_for_handle a inode handle)
  unfolding path_for_handle
  path_for_handle-Keeps a inode handle =
      drained_read-Keeps a (λ k. path_for_handle_bound_call k inode handle)

  pub child_path-Keeps :
      (a : FuseAdapter C) (parent : ℕ) (name : List ℕ) → Keeps (child_path a parent name)
  unfolding child_path
  child_path-Keeps a parent name = drained_read-Keeps a (λ k. Cache.child_path k.cache parent name)

  -- The course of almost every call: a path is found and checked, a request is sent, and the payload of
  -- the answer is taken and used.
  pub asked-Keeps :
      {X Y V R : Type 0} (find : Adapt C X) (checked : X → Result FuseError Y)
      (send : X → Y → Adapt C ResponseEnvelope) (value : ResponsePayload → Result FuseError V)
      (finish : X → V → Adapt C R)
      → Keeps find
      → ((x : X) (y : Y) → Keeps (send x y))
      → ((x : X) (v : V) → Keeps (finish x v))
      → Keeps (do
        x ← find
        y ← lift (checked x)
        r ← send x y
        payload ← lift (take_payload r)
        v ← lift (value payload)
        finish x v)
  asked-Keeps find checked send value finish f s e = bind-Keeps f (λ x.
      bind-Keeps (lift-Keeps (checked x)) (λ y. bind-Keeps (s x y) (λ r.
        bind-Keeps (lift-Keeps (take_payload r))
          (λ payload. bind-Keeps (lift-Keeps (value payload)) (λ v. e x v)))))
