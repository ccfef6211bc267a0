-- ===== src/Fuse/Adapter/Serving.antt =====
-- fs-core/src/lib.rs and fs-fuse/src/lib.rs: the cache of a client, with the dispatcher that answers it.
use fabric_fs.Prelude.{two_pow_64}
use fabric_fs.Prelude.{
  ℕ, ◌+◌, ◌<◌, ◌%◌, ◌≡◌, refl, ◌∙◌, false, Option, none, some, List, [], ◌∷◌, String, ◌===◌,
  string_eq, ok, ===_refl, arith,
}
use fabric_fs.Prelude.Map
use fabric_fs.Protocol.Invalidation.{Invalidation, validate_invalidation, wire_value, try_from}
use fabric_fs.Protocol.Validation.{validate_each}
use fabric_fs.Protocol.ResponsePayload.{ResponsePayload}
use fabric_fs.Protocol.RequestEnvelope.{RequestEnvelope}
use fabric_fs.Protocol.ResponseEnvelope.{ResponseEnvelope, failure_for}
use fabric_fs.Protocol.ResponseEnvelope.Answers.{validate-IsNamed}
use fabric_fs.Core.Service.{RpcMetadata}
use fabric_fs.Core.Invalidating.{
  Sequences, no_sequences, next_of, full_resync_invalidation_at, invalidations_for_success,
}
use fabric_fs.Core.Invalidating.Counting.{
  Counted, untouched, numbered, resynced, full_resync_invalidation_at-valid,
  invalidations_for_success-valid, invalidations_for_success-Counted,
}
use fabric_fs.Core.Dispatcher.{Dispatcher, DispatcherState, dispatch}
use fabric_fs.Core.Dispatcher.Answering.{Outcome, failed, delivered, dispatch-Outcome}
use fabric_fs.Fuse.Kernel.{CacheKernel, next_sequence, apply_success_response_invalidation}
use fabric_fs.Fuse.Kernel.Following.{applied-Follows, resync-Follows}
use fabric_fs.Fuse.Covering.{
  RequiredPathInvalidation, for_request_and_response, require_covering_path_invalidation,
  require_covering,
}
use fabric_fs.Fuse.Covering.Covered.{invalidations-cover}
use fabric_fs.Fuse.Adapter.Calling.{applied_all}

-- The client has seen everything that its namespace has counted.
abbrev pub InSync : CacheKernel → Sequences → String → Type 0
InSync k sequences namespace =
    (k.cache.last_sequence + 1 ≡ next_of sequences namespace) × (k.cache.poisoned ≡ false)

delivered-covered :
    (k : CacheKernel) (sequences : Sequences) (request : RequestEnvelope)
    (payload : ResponsePayload) (o : Option RequiredPathInvalidation)
    → for_request_and_response request.payload payload ≡ o
    → require_covering k request (invalidations_for_success sequences request payload).1 o
      ≡ (k, ok tt)
delivered-covered k sequences request payload none h = refl
delivered-covered k sequences request payload (some required) h =
    rw (invalidations-cover request required sequences payload h) refl

pub Outcome-covered :
    {request : RequestEnvelope} {before : Sequences} {r : Sequences × ResponseEnvelope}
    (k : CacheKernel)
    → Outcome request before r
    → require_covering_path_invalidation k request r.1 ≡ (k, ok tt)
unfolding require_covering_path_invalidation failure_for
Outcome-covered k (failed errno message) = refl
Outcome-covered {request} {before} k (delivered payload valid fits) =
    delivered-covered k before request payload (for_request_and_response request.payload payload)
      refl

applied_one :
    (k : CacheKernel) (namespace : String) (v : Invalidation)
    → (apply_success_response_invalidation k namespace v).1 ≡ ok tt
    → applied_all k namespace (v ∷ [])
      ≡ ((apply_success_response_invalidation k namespace v).0, ok tt)
applied_one k namespace v h = rw (applied_all, h) refl

-- After a full resync, whatever the cache was.
resync-InSync :
    (k : CacheKernel) (namespace request_id : String)
    → (namespace === "") ≡ false
    → ((applied_all k namespace (full_resync_invalidation_at namespace request_id 0 ∷ [])).1
        ≡ ok tt)
      × InSync
          (applied_all k namespace (full_resync_invalidation_at namespace request_id 0 ∷ [])).0
          no_sequences
          namespace
unfolding Map.get
resync-InSync k namespace request_id named =
    let v = full_resync_invalidation_at namespace request_id 0 in
    let (last, still, done) =
      resync-Follows k namespace v (full_resync_invalidation_at-valid namespace request_id 0 named)
        (unfold full_resync_invalidation_at in named) (unfold full_resync_invalidation_at in refl)
        (unfold full_resync_invalidation_at wire_value try_from in refl) in
    rw (applied_one k namespace v done)
      (refl, (rw last (unfold full_resync_invalidation_at next_of in refl), still))

Counted-InSync :
    {namespace request_id : String} {before after : Sequences} {invalidations : List Invalidation}
    (k : CacheKernel)
    → Counted namespace request_id before after invalidations
    → validate_each validate_invalidation invalidations ≡ ok tt
    → (namespace === "") ≡ false
    → next_of before namespace + 1 < two_pow_64
    → InSync k before namespace
    → ((applied_all k namespace invalidations).1 ≡ ok tt)
      × InSync (applied_all k namespace invalidations).0 after namespace
Counted-InSync k untouched valid named bound sync = (refl, sync)
Counted-InSync {namespace} {request_id} {before} k (numbered after v ns id number sound moves) valid
      named bound (last, well) =
    let one : validate_invalidation v ≡ ok tt = unfold validate_each in ground arith in
    let next : v.sequence ≡ next_sequence k.cache = unfold next_sequence in omega arith in
    let (came, still, done) = applied-Follows k namespace v one ns well next in
    let moved : next_of after namespace ≡ (next_of before namespace + 1) % two_pow_64 =
      moves namespace ∙ rw (===_refl namespace) refl in
    rw (applied_one k namespace v done) (refl, (rw came (ground arith), still))
Counted-InSync {namespace} {request_id} k (resynced poisoned) valid named bound sync =
    resync-InSync k namespace request_id named

pub Outcome-InSync :
    {request : RequestEnvelope} {before : Sequences} {r : Sequences × ResponseEnvelope}
    (k : CacheKernel)
    → Outcome request before r
    → next_of before request.namespace + 1 < two_pow_64
    → InSync k before request.namespace
    → ((applied_all k request.namespace r.1.invalidations).1 ≡ ok tt)
      × InSync (applied_all k request.namespace r.1.invalidations).0 r.0 request.namespace
unfolding failure_for
Outcome-InSync k (failed errno message) bound sync = (refl, sync)
Outcome-InSync {request} {before} k (delivered payload valid fits) bound sync =
    Counted-InSync k (invalidations_for_success-Counted before request payload)
      (invalidations_for_success-valid before request payload valid)
      (validate-IsNamed request valid).namespace_full bound sync

module _ {S : Type 0} (d : Dispatcher S) (now : ℕ) (state : DispatcherState S)
    (request : RequestEnvelope) (metadata : RpcMetadata) (k : CacheKernel) where
  -- Every response of a dispatch carries the invalidation that the cache requires of it, so the cache
  -- stays as it is.
  pub dispatch-covered :
      require_covering_path_invalidation k request (dispatch d now state request metadata).1
      ≡ (k, ok tt)
  dispatch-covered = Outcome-covered k (dispatch-Outcome d now state request metadata)

  -- A cache that is in order and has seen every number that its namespace counted applies the
  -- invalidations of any response of a dispatch without an error, and is then again in order and up to
  -- date, as long as the counter is below the largest u64.
  pub dispatch-InSync :
      next_of state.sequences request.namespace + 1 < two_pow_64
      → InSync k state.sequences request.namespace
      → ((applied_all k request.namespace (dispatch d now state request metadata).1.invalidations).1
          ≡ ok tt)
        × InSync
            (applied_all k request.namespace
              (dispatch d now state request metadata).1.invalidations).0
            (dispatch d now state request metadata).0.sequences
            request.namespace
  dispatch-InSync bound sync =
      Outcome-InSync k (dispatch-Outcome d now state request metadata) bound sync
