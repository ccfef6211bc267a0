-- ===== src/Transport/Replay/Bounded.antt =====
-- What holds of the own requests at all times: at most 1024 completed ones are remembered, each once,
-- and only a pending request has invalidations held back.
use fabric_fs.Prelude.{
  ◌≤◌, ◌≡◌, refl, true, false, ◌||◌, none, List, [], ◌∷◌, ◌++◌, String, ◌===◌, string_eq, ===_refl,
  arith, Bool-cases, inl, inr, length, leb,
}
use fabric_fs.Prelude.Map
use fabric_fs.Prelude.Map.{Map}
use fabric_fs.Prelude.Names.{
  contains, without, add, contains-without, contains-add, contains-append, IsDistinct,
  without-IsDistinct, append-IsDistinct, length-without,
}
use fabric_fs.Protocol.Invalidation.{Invalidation}
use fabric_fs.Transport.Replay.{
  OwnInvalidationReplay, max_own_request_ids, start, begin, expire, complete, abandon,
  handle_invalidation, take_recovered, remember_completed, or_none_deferred,
}

pub record IsBounded (r : OwnInvalidationReplay) : Type 0 where
  pub agree : (s : String) → contains r.completed s ≡ contains r.completed_order s
  pub distinct : IsDistinct r.completed_order
  pub bound : length r.completed_order ≤ 1024
  pub apart : (s : String) → contains r.completed s ≡ true → contains r.pending s ≡ false
  pub held : (s : String) → contains r.pending s ≡ false → Map.get r.deferred s ≡ none

abbrev Fits : List String × List String → Type 0
Fits (order, completed) =
    IsDistinct order
    × ((s : String) → contains completed s ≡ contains order s)
    × (length order ≤ 1024)

expire-Fits :
    (order completed : List String)
    → IsDistinct order
    → ((s : String) → contains completed s ≡ contains order s)
    → Fits (expire order completed)
unfolding expire contains
expire-Fits [] completed d agree = (tt, agree, omega arith)
expire-Fits (x ∷ order) completed (out, d) agree =
    elim (Bool-cases (leb (length (x ∷ order)) max_own_request_ids)) [
      | inl fits ↦ rw fits ((out, d), agree, ground arith)
      | inr long ↦ rw long (expire-Fits order (without completed x) d removed)
    ]
  where
    removed : (s : String) → contains (without completed x) s ≡ contains order s
    removed s = ground (arith, contains-without completed x s, agree s, string_eq.beq_iff x s)

expire-subset :
    (order completed : List String) (s : String)
    → contains (expire order completed).1 s ≡ true
    → contains completed s ≡ true
unfolding expire
expire-subset [] completed s h = h
expire-subset (x ∷ order) completed s h =
    ground (arith, expire-subset order (without completed x) s, contains-without completed x s)

pub expire-last :
    (order completed : List String) (s : String)
    → contains completed s ≡ true
    → contains order s ≡ false
    → contains (expire (order ++ s ∷ []) completed).1 s ≡ true
unfolding expire contains
expire-last [] completed s h out = h
expire-last (x ∷ order) completed s h out =
    ground (arith, expire-last order (without completed x) s, contains-without completed x s)

abbrev with_deferred :
    OwnInvalidationReplay → List String → Map String (List Invalidation) → OwnInvalidationReplay
with_deferred r pending deferred = record r { pending = pending; deferred = deferred }

pub start-IsBounded : IsBounded start
unfolding start contains Map.get
start-IsBounded = record {
  agree = λ s. refl;
  distinct = tt;
  bound = omega arith;
  apart = λ s h. refl;
  held = λ s h. refl;
}

pub begin-IsBounded :
    (r : OwnInvalidationReplay) (id : String) → IsBounded r → IsBounded (begin r id)
unfolding begin
begin-IsBounded r id b = elim (Bool-cases (id === "")) [
  | inl empty ↦ rw empty b
  | inr named ↦ rw named (record {
    agree = λ s. ground (
      arith,
      contains-without r.completed id s,
      contains-without r.completed_order id s,
      b.agree s,
    );
    distinct = without-IsDistinct r.completed_order id b.distinct;
    bound = omega (arith, length-without r.completed_order id, b.bound);
    apart = λ s h.
        ground (arith, contains-without r.completed id s, contains-add r.pending id s, b.apart s);
    held = λ s h. ground (arith, contains-add r.pending id s, b.held s);
  })
]

-- A request that is no longer pending has nothing held back.
pub settle-IsBounded :
    (r : OwnInvalidationReplay) (id : String)
    → IsBounded r
    → IsBounded (with_deferred r (without r.pending id) (Map.remove r.deferred id))
settle-IsBounded r id b = record {
  agree = b.agree;
  distinct = b.distinct;
  bound = b.bound;
  apart = λ s h. ground (arith, contains-without r.pending id s, b.apart s);
  held = λ s h.
      ground (arith, contains-without r.pending id s, Map.get-remove r.deferred id s, b.held s);
}

pub remember_completed-IsBounded :
    (r : OwnInvalidationReplay) (id : String)
    → IsBounded r
    → contains r.pending id ≡ false
    → IsBounded (remember_completed r id)
unfolding remember_completed
remember_completed-IsBounded r id b out = elim (Bool-cases (id === "" || contains r.completed id)) [
  | inl kept ↦ rw kept b
  | inr fresh ↦ rw fresh (record {
    agree = (fits fresh).1;
    distinct = (fits fresh).0;
    bound = (fits fresh).2;
    apart = λ s h. ground (
      arith,
      expire-subset (r.completed_order ++ id ∷ []) (add r.completed id) s h,
      contains-add r.completed id s,
      b.apart s,
      string_eq.beq_iff id s,
    );
    held = b.held;
  })
]
  where
    fits :
        (id === "" || contains r.completed id) ≡ false
        → Fits (expire (r.completed_order ++ id ∷ []) (add r.completed id))
    fits fresh =
        expire-Fits (r.completed_order ++ id ∷ []) (add r.completed id)
          (append-IsDistinct r.completed_order id b.distinct (ground (arith, b.agree id)))
          (λ s.
            unfold contains in
            ground (
              arith,
              contains-add r.completed id s,
              contains-append r.completed_order (id ∷ []) s,
              b.agree s,
            ))

pub complete-IsBounded :
    (r : OwnInvalidationReplay) (id : String) → IsBounded r → IsBounded (complete r id)
unfolding complete
complete-IsBounded r id b =
    remember_completed-IsBounded (with_deferred r (without r.pending id) (Map.remove r.deferred id))
      id (settle-IsBounded r id b) (rw (contains-without, ===_refl id) refl)

pub abandon-IsBounded :
    (r : OwnInvalidationReplay) (id : String) → IsBounded r → IsBounded (abandon r id)
unfolding abandon
abandon-IsBounded r id b = record {
  agree = b.agree;
  distinct = b.distinct;
  bound = b.bound;
  apart = (settle-IsBounded r id b).apart;
  held = (settle-IsBounded r id b).held;
}

pub handle_invalidation-IsBounded :
    (r : OwnInvalidationReplay) (v : Invalidation)
    → IsBounded r
    → IsBounded (handle_invalidation r v).0
unfolding handle_invalidation
handle_invalidation-IsBounded r v b = elim (Bool-cases (v.request_id === "")) [
  | inl empty ↦ rw empty b
  | inr named ↦ elim (Bool-cases (contains r.completed v.request_id)) [
    | inl known ↦ rw (named, known) b
    | inr fresh ↦ elim (Bool-cases (contains r.pending v.request_id)) [
      | inr foreign ↦ rw (named, fresh, foreign) b
      | inl own ↦
          rw (named, fresh, own)
            (record {
              agree = b.agree;
              distinct = b.distinct;
              bound = b.bound;
              apart = b.apart;
              held = λ s h. ground (
                arith,
                Map.get-insert r.deferred v.request_id s
                    (or_none_deferred (Map.get r.deferred v.request_id) ++ v ∷ []),
                b.held s,
                string_eq.beq_iff v.request_id s,
              );
            })
    ]
  ]
]

pub take_recovered-IsBounded :
    (r : OwnInvalidationReplay) (namespace : String)
    → IsBounded r
    → IsBounded (take_recovered r namespace).0
unfolding take_recovered
take_recovered-IsBounded r namespace b = record {
  agree = b.agree;
  distinct = b.distinct;
  bound = b.bound;
  apart = b.apart;
  held = b.held;
}
