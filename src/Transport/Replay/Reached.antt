-- ===== src/Transport/Replay/Reached.antt =====
-- The states that the calls of `OwnInvalidationReplay` reach, and what holds in all of them.
use fabric_fs.Prelude.{
  ◌≡◌, refl, sym, ◌∙◌, true, false, none, String, ◌===◌, string_eq, ===_refl, Bool-cases, inl, inr,
}
use fabric_fs.Prelude.Names.{contains, add, contains-add}
use fabric_fs.Protocol.Invalidation.{Invalidation}
use fabric_fs.Transport.Replay.{
  OwnInvalidationReplay, start, begin, complete, abandon, handle_invalidation, take_recovered,
  remember_completed,
}
use fabric_fs.Transport.Replay.Bounded.{
  IsBounded, expire-last, start-IsBounded, begin-IsBounded, complete-IsBounded, abandon-IsBounded,
  handle_invalidation-IsBounded, take_recovered-IsBounded,
}

-- The states that calls reach from the first one, in any order.
pub data Reached : OwnInvalidationReplay → Type 0 where
  at_start : Reached start
  began : (r : OwnInvalidationReplay) (id : String) → Reached r → Reached (begin r id)
  completed_ : (r : OwnInvalidationReplay) (id : String) → Reached r → Reached (complete r id)
  abandoned : (r : OwnInvalidationReplay) (id : String) → Reached r → Reached (abandon r id)
  received :
      (r : OwnInvalidationReplay) (v : Invalidation)
      → Reached r
      → Reached (handle_invalidation r v).0
  taken_over :
      (r : OwnInvalidationReplay) (namespace : String)
      → Reached r
      → Reached (take_recovered r namespace).0

-- Whatever calls are made, at most 1024 completed requests are remembered, each once and in both
-- collections; a completed request is not pending, and only a pending one has invalidations held back.
pub Reached-IsBounded : (r : OwnInvalidationReplay) → Reached r → IsBounded r
Reached-IsBounded _ at_start = start-IsBounded
Reached-IsBounded _ (began r id h) = begin-IsBounded r id (Reached-IsBounded r h)
Reached-IsBounded _ (completed_ r id h) = complete-IsBounded r id (Reached-IsBounded r h)
Reached-IsBounded _ (abandoned r id h) = abandon-IsBounded r id (Reached-IsBounded r h)
Reached-IsBounded _ (received r v h) = handle_invalidation-IsBounded r v (Reached-IsBounded r h)
Reached-IsBounded _ (taken_over r namespace h) =
    take_recovered-IsBounded r namespace (Reached-IsBounded r h)

completed-complete :
    (r : OwnInvalidationReplay) (id : String)
    → IsBounded r
    → (id === "") ≡ false
    → contains (complete r id).completed id ≡ true
unfolding complete remember_completed
completed-complete r id b named = elim (Bool-cases (contains r.completed id)) [
  | inl known ↦ rw (named, known) known
  | inr fresh ↦
      rw (named, fresh)
        (expire-last r.completed_order (add r.completed id) id (rw (contains-add, ===_refl id) refl)
          (sym (b.agree id) ∙ fresh))
]

-- After a request is completed its invalidation is dropped when it comes again, and nothing changes.
pub handle_invalidation-complete :
    (r : OwnInvalidationReplay) (v : Invalidation)
    → Reached r
    → (v.request_id === "") ≡ false
    → handle_invalidation (complete r v.request_id) v ≡ (complete r v.request_id, none)
unfolding handle_invalidation
handle_invalidation-complete r v h named =
    rw (named, completed-complete r v.request_id (Reached-IsBounded r h) named) refl
