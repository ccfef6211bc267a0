-- ===== src/Core/Invalidating/Counting.antt =====
-- fs-core/src/lib.rs, `invalidations_for_success`: its invalidations are well formed, and their
-- sequence numbers follow one another.
use fabric_fs.Prelude.{two_pow_64}
use fabric_fs.Prelude.{
  ℕ, ◌+◌, ◌%◌, ◌≡◌, refl, Bool, true, false, Option, none, some, List, [], ◌∷◌, String, ◌===◌,
  string_eq, bytes_eq, if◌then◌else◌, Result, ok, err, Bool-cases, inl, inr,
}
use fabric_fs.Prelude.Map
use fabric_fs.Prelude.Map.{get-insert}
use fabric_fs.Protocol.Invalidation.{
  Invalidation, InvalidationKind, wire_value, try_from, validate_kind_paths, validate_invalidation,
}
use fabric_fs.Protocol.Validation.{validate_each}
use fabric_fs.Protocol.RequestPayload.{RequestPayload}
use fabric_fs.Protocol.ResponsePayload.{ResponsePayload}
use fabric_fs.Protocol.RequestEnvelope
use fabric_fs.Protocol.RequestEnvelope.{RequestEnvelope}
use fabric_fs.Protocol.ResponseEnvelope.Answers.{validate-IsNamed}
use fabric_fs.Core.Invalidating.{
  Sequences, no_sequences, next_of, next_invalidation_sequence, invalidation_kind_for_request,
  full_resync_invalidation_at, with_rename_paths, invalidation_at, invalidation_or_resync,
  invalidations_for_kind, invalidations_for_success,
}
use fabric_fs.Core.Invalidating.Made.{made-valid}

pub full_resync_invalidation_at-valid :
    (namespace request_id : String) (sequence : ℕ)
    → (namespace === "") ≡ false
    → validate_invalidation (full_resync_invalidation_at namespace request_id sequence) ≡ ok tt
unfolding validate_invalidation full_resync_invalidation_at wire_value try_from validate_kind_paths
full_resync_invalidation_at-valid namespace request_id sequence h = rw h refl

invalidation_at-valid :
    (request : RequestEnvelope) (payload : ResponsePayload) (kind : InvalidationKind) (sequence : ℕ)
    → RequestEnvelope.validate request ≡ ok tt
    → invalidation_kind_for_request request.payload ≡ some kind
    → validate_invalidation (invalidation_at request payload kind sequence) ≡ ok tt
unfolding invalidation_at
invalidation_at-valid request payload kind sequence valid k =
    let n = validate-IsNamed request valid in
    made-valid request.payload _ kind n.payload_valid k (n.namespace_full, refl, refl, refl, refl)

-- A valid request gets well-formed invalidations only.
pub invalidations_for_success-valid :
    (sequences : Sequences) (request : RequestEnvelope) (payload : ResponsePayload)
    → RequestEnvelope.validate request ≡ ok tt
    → validate_each validate_invalidation (invalidations_for_success sequences request payload).1
      ≡ ok tt
unfolding invalidations_for_success invalidations_for_kind validate_each
invalidations_for_success-valid sequences request payload valid =
    for_kind (invalidation_kind_for_request request.payload) refl
  where
    for_number :
        (kind : InvalidationKind)
        → invalidation_kind_for_request request.payload ≡ some kind
        → (r : Sequences × Result (Unit {0}) ℕ)
        → validate_each validate_invalidation (invalidation_or_resync request payload kind r).1
          ≡ ok tt
    for_number kind k (after, ok sequence) =
        rw (invalidation_at-valid request payload kind sequence valid k)
    for_number kind k (after, err _) = rw (
        full_resync_invalidation_at-valid request.namespace request.request_id 0
          (validate-IsNamed request valid).namespace_full)

    for_kind :
        (o : Option InvalidationKind)
        → invalidation_kind_for_request request.payload ≡ o
        → validate_each validate_invalidation (invalidations_for_kind sequences request payload o).1
          ≡ ok tt
    for_kind none k = refl
    for_kind (some kind) k =
        for_number kind k (next_invalidation_sequence sequences request.namespace)

-- What a call does to the counters and puts in its response: nothing; one invalidation with the number
-- of its namespace, which moves on while the others stay; or, after a panic under the lock, a full
-- resync, and every namespace begins anew.
pub data Counted (namespace request_id : String) (before : Sequences)
    : Sequences → List Invalidation → Type 0 where
  untouched : Counted namespace request_id before before []
  numbered :
      (after : Sequences) (v : Invalidation)
      → v.namespace ≡ namespace
      → v.request_id ≡ request_id
      → v.sequence ≡ next_of before namespace
      → after.poisoned ≡ false
      → ((other : String)
          → next_of after other ≡ (
              if namespace === other
              then (next_of before namespace + 1) % two_pow_64
              else next_of before other))
      → Counted namespace request_id before after (v ∷ [])
  resynced :
      before.poisoned ≡ true
      → Counted namespace request_id before no_sequences
          (full_resync_invalidation_at namespace request_id 0 ∷ [])

next_of-next :
    (s : Sequences) (namespace other : String)
    → next_of
        (record s { next = Map.insert s.next namespace ((next_of s namespace + 1) % two_pow_64) })
        other
      ≡ (if namespace === other then (next_of s namespace + 1) % two_pow_64 else next_of s other)
next_of-next s namespace other = elim (Bool-cases (namespace === other)) [
  | inl same ↦ unfold next_of in rw (get-insert, same)
  | inr different ↦ unfold next_of in rw (get-insert, different)
]

pub with_rename_paths-keeps :
    (p : RequestPayload) (v : Invalidation)
    → ((with_rename_paths p v).namespace ≡ v.namespace)
      × ((with_rename_paths p v).request_id ≡ v.request_id)
      × ((with_rename_paths p v).sequence ≡ v.sequence)
unfolding with_rename_paths
with_rename_paths-keeps (RequestPayload.rename r) v = (refl, refl, refl)
with_rename_paths-keeps (RequestPayload.lookup r) v = (refl, refl, refl)
with_rename_paths-keeps _ v = (refl, refl, refl)

pub invalidations_for_success-Counted :
    (sequences : Sequences) (request : RequestEnvelope) (payload : ResponsePayload)
    → Counted request.namespace request.request_id sequences
        (invalidations_for_success sequences request payload).0
        (invalidations_for_success sequences request payload).1
unfolding invalidations_for_success invalidations_for_kind next_invalidation_sequence
    invalidation_at
invalidations_for_success-Counted sequences request payload =
    for_kind (invalidation_kind_for_request request.payload)
  where
    for_kind :
        (o : Option InvalidationKind)
        → Counted request.namespace request.request_id sequences
            (invalidations_for_kind sequences request payload o).0
            (invalidations_for_kind sequences request payload o).1
    for_kind none = untouched
    for_kind (some kind) = for_lock sequences.poisoned refl
      where
        moved : Sequences
        moved = record sequences {
          next =
              Map.insert sequences.next request.namespace
                ((next_of sequences request.namespace + 1) % two_pow_64);
        }

        answered : Bool → Sequences × List Invalidation
        answered b = invalidation_or_resync request payload kind (
            if b then (no_sequences, err tt) else (moved, ok (next_of sequences request.namespace)))

        for_lock :
            (b : Bool)
            → sequences.poisoned ≡ b
            → Counted request.namespace request.request_id sequences (answered b).0 (answered b).1
        for_lock true e = resynced e
        for_lock false e =
            let (ns, id, number) = with_rename_paths-keeps request.payload _ in
            numbered _ _ ns id number e (next_of-next sequences request.namespace)
