-- ===== src/Fuse/Adapter/Losing.antt =====
-- fs-core/src/lib.rs and fs-fuse/src/lib.rs: a call that fails although the server may have changed the
-- tree.
use fabric_fs.Prelude.{
  ◌≡◌, refl, Bool, true, false, ◌⊎◌, inl, inr, Option, none, some, List, [], ◌∷◌, String, Result,
  ok, err, any, Bool-cases,
}
use fabric_fs.Protocol.Error.{ProtocolError}
use fabric_fs.Protocol.Invalidation.{Invalidation, InvalidationKind}
use fabric_fs.Protocol.OperationSpec.Types.{
  OperationEffect, content_mutation, create_node, delete_node, rename_node, metadata_mutation,
  xattr_mutation, requires_path_invalidation,
}
use fabric_fs.Protocol.OperationSpec.Table.{effect_of}
use fabric_fs.Protocol.RequestPayload.{RequestPayload, operation}
use fabric_fs.Protocol.ResponsePayload.{ResponsePayload}
use fabric_fs.Protocol.RequestEnvelope.{RequestEnvelope}
use fabric_fs.Protocol.ResponseEnvelope
use fabric_fs.Protocol.ResponseEnvelope.{ResponseEnvelope}
use fabric_fs.Core.Invalidating.{
  truncates, kind_for_effect, kind_for_row, invalidation_kind_for_request,
}
use fabric_fs.Core.Dispatcher.{RpcError}
use fabric_fs.Fuse.Cache.{FuseError, stale_cache}
use fabric_fs.Fuse.Kernel.{
  CacheKernel, apply_invalidation, apply_success_response_invalidation, stale_is_ok,
}
use fabric_fs.Fuse.Kernel.Poisoning.{poison-poisoned, error-poisoned}
use fabric_fs.Fuse.Covering
use fabric_fs.Fuse.Covering.{
  RequiredPathInvalidation, request_requires_path_invalidation, for_request_and_response, matches,
  poison_unless, require_covering, require_covering_payload,
}
use fabric_fs.Fuse.Adapter.State.{FuseAdapter, AdapterState, succeed, ◌>>◌, go_on}
use fabric_fs.Fuse.Adapter.Calling.{
  with_kernel, applied_all, count_stale, accept_success, accept_failure, accept_ok, accept, give_up,
  require_covering_path_invalidation, poison_cache_after_uncertain_path_mutation,
}

-- What the dispatcher announces, the cache has to hear of.
effect-required :
    (effect : OperationEffect) (kind : InvalidationKind)
    → kind_for_effect effect ≡ some kind
    → requires_path_invalidation effect ≡ true
unfolding kind_for_effect requires_path_invalidation
effect-required content_mutation kind h = refl
effect-required create_node kind h = refl
effect-required delete_node kind h = refl
effect-required rename_node kind h = refl
effect-required metadata_mutation kind h = refl
effect-required xattr_mutation kind h = refl
effect-required _ kind h = absurd (cc)

row-required :
    (row : Option OperationEffect) (kind : InvalidationKind)
    → kind_for_row row ≡ some kind
    → (elim row as (λ _. Bool) [ none ↦ false | some effect ↦ requires_path_invalidation effect ])
      ≡ true
row-required none kind h = absurd (cc)
row-required (some effect) kind h = effect-required effect kind h

announced-required :
    (p : RequestPayload) (kind : InvalidationKind)
    → invalidation_kind_for_request p ≡ some kind
    → request_requires_path_invalidation p ≡ true
unfolding invalidation_kind_for_request request_requires_path_invalidation
announced-required p kind h = elim (Bool-cases (truncates p)) [
  | inl truncating ↦ rw truncating refl
  | inr other ↦ rw other (row-required (effect_of (operation p)) kind (rw other at h))
]

-- A step of the cache that fails has poisoned it.
abbrev StepCloses : {A : Type 0} → CacheKernel × Result FuseError A → Type 0
StepCloses (k, ok a) = Unit
StepCloses (k, err e) = k.cache.poisoned ≡ true

stale-StepCloses :
    (k : CacheKernel) (r : Result FuseError Bool)
    → ((e : FuseError) → r ≡ err e → k.cache.poisoned ≡ true)
    → StepCloses (k, stale_is_ok r)
stale-StepCloses k (ok b) h = tt
stale-StepCloses k (err stale_cache) h = tt
stale-StepCloses k (err FuseError.invalid_child_name) h = h _ refl
stale-StepCloses k (err _) h = h _ refl

applied-StepCloses :
    (k : CacheKernel) (namespace : String) (v : Invalidation)
    → StepCloses (apply_success_response_invalidation k namespace v)
unfolding apply_success_response_invalidation
applied-StepCloses k namespace v =
    stale-StepCloses (apply_invalidation k namespace v false).0
      (apply_invalidation k namespace v false).1 (λ e h. error-poisoned k namespace v false e h)

step_closes :
    {A : Type 0} (r : CacheKernel × Result FuseError A) (e : FuseError)
    → StepCloses r
    → r.1 ≡ err e
    → r.0.cache.poisoned ≡ true
step_closes (k, ok a) e c h = absurd (cc)
step_closes (k, err x) e c h = c

applied_all-StepCloses :
    (k : CacheKernel) (namespace : String) (invalidations : List Invalidation)
    → StepCloses (applied_all k namespace invalidations)
applied_all-StepCloses k namespace [] = tt
applied_all-StepCloses k namespace (v ∷ rest) =
    go (apply_success_response_invalidation k namespace v).1 refl
      (applied_all-StepCloses (apply_success_response_invalidation k namespace v).0 namespace rest)
  where
    go :
        (r : Result FuseError (Unit {0}))
        → (apply_success_response_invalidation k namespace v).1 ≡ r
        → StepCloses
            (applied_all (apply_success_response_invalidation k namespace v).0 namespace rest)
        → StepCloses (elim r as (λ _. CacheKernel × Result FuseError (Unit {0})) [
          | ok _ ↦ applied_all (apply_success_response_invalidation k namespace v).0 namespace rest
          | err e ↦ ((apply_success_response_invalidation k namespace v).0, err e)
        ])
    go (ok u) h after = after
    go (err e) h after =
        step_closes (apply_success_response_invalidation k namespace v) e
          (applied-StepCloses k namespace v) h

covering-StepCloses :
    (k : CacheKernel) (request : RequestEnvelope) (r : ResponseEnvelope)
    → StepCloses (Covering.require_covering_path_invalidation k request r)
unfolding Covering.require_covering_path_invalidation
covering-StepCloses k request r = by_payload r.payload
  where
    unless : (b : Bool) → StepCloses (poison_unless k b)
    unless true = tt
    unless false = poison-poisoned k.cache

    required :
        (o : Option RequiredPathInvalidation)
        → StepCloses (require_covering k request r.invalidations o)
    required none = tt
    required (some x) = unless (any (matches x request) r.invalidations)

    by_payload :
        (o : Option ResponsePayload)
        → StepCloses (require_covering_payload k request r.invalidations o)
    by_payload none = tt
    by_payload (some p) = required (for_request_and_response request.payload p)

-- The server has refused the request, in an answer that is well formed and its own.
abbrev pub IsRefused : RequestEnvelope → Result RpcError ResponseEnvelope → Type 0
IsRefused request (err lost) = ⊥
IsRefused request (ok r) =
    (r.is_success ≡ false) × (ResponseEnvelope.validate_for_request r request ≡ ok tt)

-- A call that fails without a refusal has poisoned the cache.
abbrev CallCloses :
    {C : Type 0} → Type 0 → AdapterState C × Result FuseError ResponseEnvelope → Type 0
CallCloses refused (s, ok r) = Unit
CallCloses refused (s, err e) = refused ⊎ (s.kernel.cache.poisoned ≡ true)

call_closes :
    {C refused : Type 0} (t : AdapterState C × Result FuseError ResponseEnvelope) (e : FuseError)
    → CallCloses refused t
    → t.1 ≡ err e
    → refused ⊎ (t.0.kernel.cache.poisoned ≡ true)
call_closes (s, ok r) e c h = absurd (cc)
call_closes (s, err x) e c h = c

module _ {C : Type 0} (a : FuseAdapter C) (request : RequestEnvelope) (refused : Type 0) where
  covered-CallCloses :
      (r : ResponseEnvelope) (s : AdapterState C) (step : CacheKernel × Result FuseError (Unit {0}))
      → StepCloses step
      → CallCloses refused (go_on (λ _. succeed r) (count_stale (with_kernel s step)))
  covered-CallCloses r s (k, ok u) c = tt
  covered-CallCloses r s (k, err stale_cache) c = inr c
  covered-CallCloses r s (k, err FuseError.invalid_child_name) c = inr c
  covered-CallCloses r s (k, err _) c = inr c

  applied-CallCloses :
      (r : ResponseEnvelope) (s : AdapterState C) (step : CacheKernel × Result FuseError (Unit {0}))
      → StepCloses step
      → CallCloses refused (
          go_on
            (λ _. require_covering_path_invalidation request r >> succeed r)
            (with_kernel s step))
  unfolding require_covering_path_invalidation
  applied-CallCloses r s (k, err e) c = inr c
  applied-CallCloses r s (k, ok u) c =
      covered-CallCloses r (record s { kernel = k })
        (Covering.require_covering_path_invalidation k request r) (covering-StepCloses k request r)

  give_up-CallCloses :
      (e : FuseError) (s : AdapterState C)
      → request_requires_path_invalidation request.payload ≡ true
      → CallCloses refused (give_up request e s)
  unfolding poison_cache_after_uncertain_path_mutation Covering.poison_after_uncertain_path_mutation
  give_up-CallCloses e s h = rw h (inr (poison-poisoned s.kernel.cache))

  success-CallCloses :
      (r : ResponseEnvelope) (s : AdapterState C) (checked : Result ProtocolError (Unit {0}))
      → request_requires_path_invalidation request.payload ≡ true
      → CallCloses refused (accept_success a request r checked s)
  success-CallCloses r s (err e) h = give_up-CallCloses _ s h
  success-CallCloses r s (ok u) h =
      applied-CallCloses r s (applied_all s.kernel a.namespace r.invalidations)
        (applied_all-StepCloses s.kernel a.namespace r.invalidations)

  failure-CallCloses :
      (r : ResponseEnvelope) (s : AdapterState C) (checked : Result ProtocolError (Unit {0}))
      → (checked ≡ ok tt → refused)
      → request_requires_path_invalidation request.payload ≡ true
      → CallCloses refused (accept_failure request r checked s)
  failure-CallCloses r s (err e) refusing h = give_up-CallCloses _ s h
  failure-CallCloses r s (ok u) refusing h = inl (refusing refl)

accept-CallCloses :
    {C : Type 0} (a : FuseAdapter C) (request : RequestEnvelope) (s : AdapterState C)
    (answer : Result RpcError ResponseEnvelope)
    → request_requires_path_invalidation request.payload ≡ true
    → CallCloses (IsRefused request answer) (accept a request answer s)
accept-CallCloses a request s (err lost) h = give_up-CallCloses a request _ _ s h
accept-CallCloses a request s (ok r) h = by_success r.is_success refl
  where
    by_success :
        (b : Bool)
        → r.is_success ≡ b
        → CallCloses (IsRefused request (ok r)) (accept_ok a request r b s)
    by_success true e = success-CallCloses a request _ r s _ h
    by_success false e = failure-CallCloses a request _ r s _ (λ checked. (e, checked)) h

-- When the dispatcher would announce a change of the tree for a request, and the call of the adapter
-- fails for any reason but a refusal (the transport failed, the answer does not fit the request, an
-- invalidation in it cannot be applied, or the one that the cache needs is missing), the cache is
-- poisoned.
pub lost-poisoned :
    {C : Type 0} (a : FuseAdapter C) (request : RequestEnvelope) (s : AdapterState C)
    (answer : Result RpcError ResponseEnvelope) (kind : InvalidationKind) (e : FuseError)
    → invalidation_kind_for_request request.payload ≡ some kind
    → (accept a request answer s).1 ≡ err e
    → IsRefused request answer ⊎ ((accept a request answer s).0.kernel.cache.poisoned ≡ true)
lost-poisoned a request s answer kind e announced failed =
    call_closes (accept a request answer s) e
      (accept-CallCloses a request s answer (announced-required request.payload kind announced))
      failed
