-- ===== src/Transport/Replay/Delivery.antt =====
-- What becomes of the invalidation of a client's own request.
use mathlib.Core.List.{append_assoc}
use fabric_fs.Prelude.{
  ◌≡◌, refl, sym, ap, true, false, not, none, List, [], ◌∷◌, ◌++◌, String, ◌===◌, string_eq,
  ===_refl, retain, Bool-cases, inl, inr,
}
use fabric_fs.Prelude.Map
use fabric_fs.Prelude.Map.{Map}
use fabric_fs.Prelude.Names.{contains, contains-without, contains-add}
use fabric_fs.Protocol.Invalidation.{Invalidation}
use fabric_fs.Transport.Replay.{
  OwnInvalidationReplay, begin, abandon, handle_invalidation, take_recovered, partition_namespace,
  or_none_deferred,
}

-- An invalidation that comes while its request is pending is held back, and it is the last one to be
-- recovered if the request is abandoned.
pub abandon-handle_invalidation :
    (r : OwnInvalidationReplay) (v : Invalidation)
    → (v.request_id === "") ≡ false
    → contains r.completed v.request_id ≡ false
    → contains r.pending v.request_id ≡ true
    → ((handle_invalidation r v).1 ≡ none)
      × ((abandon (handle_invalidation r v).0 v.request_id).recovered
          ≡ (abandon r v.request_id).recovered ++ v ∷ [])
unfolding handle_invalidation abandon
abandon-handle_invalidation r v named fresh pending =
    rw (named, fresh, pending)
      (
        refl,
        rw
            (Map.get-insert_self r.deferred v.request_id
              (or_none_deferred (Map.get r.deferred v.request_id) ++ v ∷ []))
            (sym (
              append_assoc r.recovered (or_none_deferred (Map.get r.deferred v.request_id))
                (v ∷ []))),
      )

begin-pending :
    (r : OwnInvalidationReplay) (request_id : String)
    → (request_id === "") ≡ false
    → (contains (begin r request_id).completed request_id ≡ false)
      × (contains (begin r request_id).pending request_id ≡ true)
unfolding begin
begin-pending r request_id named =
    rw (named, contains-without, contains-add, ===_refl request_id) (refl, refl)

-- From its beginning a request's invalidation is held back, and it is the last one to be recovered if
-- the request is abandoned.
pub handle_invalidation-begin :
    (r : OwnInvalidationReplay) (v : Invalidation)
    → (v.request_id === "") ≡ false
    → ((handle_invalidation (begin r v.request_id) v).1 ≡ none)
      × ((abandon (handle_invalidation (begin r v.request_id) v).0 v.request_id).recovered
          ≡ (abandon (begin r v.request_id) v.request_id).recovered ++ v ∷ [])
handle_invalidation-begin r v named =
    abandon-handle_invalidation (begin r v.request_id) v named
      (begin-pending r v.request_id named).0 (begin-pending r v.request_id named).1

partition_namespace-retain :
    (l : List Invalidation) (namespace : String)
    → (partition_namespace l namespace).0 ≡ retain (λ v. v.namespace === namespace) l
unfolding partition_namespace retain
partition_namespace-retain [] namespace = refl
partition_namespace-retain (v ∷ l) namespace = elim (Bool-cases (v.namespace === namespace)) [
  | inl own ↦
      rw own
        (ap {B = List Invalidation} (λ rest. v ∷ rest) (partition_namespace-retain l namespace))
  | inr other ↦ rw other (partition_namespace-retain l namespace)
]

partition_namespace-rest :
    (l : List Invalidation) (namespace : String)
    → (partition_namespace l namespace).1 ≡ retain (λ v. not (v.namespace === namespace)) l
unfolding partition_namespace retain
partition_namespace-rest [] namespace = refl
partition_namespace-rest (v ∷ l) namespace = elim (Bool-cases (v.namespace === namespace)) [
  | inl own ↦ rw own (partition_namespace-rest l namespace)
  | inr other ↦
      rw other
        (ap {B = List Invalidation} (λ rest. v ∷ rest) (partition_namespace-rest l namespace))
]

-- What is recovered for a namespace is every recovered invalidation of it in order; the others stay.
pub take_recovered-retain :
    (r : OwnInvalidationReplay) (namespace : String)
    → ((take_recovered r namespace).1 ≡ retain (λ v. v.namespace === namespace) r.recovered)
      × ((take_recovered r namespace).0.recovered
          ≡ retain (λ v. not (v.namespace === namespace)) r.recovered)
unfolding take_recovered
take_recovered-retain r namespace = (
  partition_namespace-retain r.recovered namespace,
  partition_namespace-rest r.recovered namespace,
)
