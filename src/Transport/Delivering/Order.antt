-- ===== src/Transport/Delivering/Order.antt =====
-- The order of the calls of a delivery, and what is released when it fails.
use fabric_fs.Prelude.{
  ℕ, ◌≡◌, refl, ap, Bool, true, false, Option, List, [], ◌∷◌, ◌++◌, if◌then◌else◌, Result, ok, err,
  map, any, any-append, not, is_ok, arith,
}
use fabric_fs.Protocol.Invalidation.{Invalidation}
use fabric_fs.Protocol.OperationSpec.Types.{MessageShape}
use fabric_fs.Transport.Delivering.{
  Call, publish_invalidation, publish_reply, abort_response_handles,
  cleanup_expired_response_handles, fail_if_response_deadline_expired, and_then, or_abort,
  publish_invalidations, deliver_prepared_response, response_handles_require_cleanup_after_deadline,
}

abbrev pub releases : Call → Bool
releases abort_response_handles = true
releases cleanup_expired_response_handles = true
releases _ = false

abbrev pub is_reply : Call → Bool
is_reply publish_reply = true
is_reply _ = false

-- A failure has released the handles, and a success has not.
abbrev Settled : {E : Type 0} → List Call × Result E (Unit {0}) → Type 0
Settled (calls, ok _) = any releases calls ≡ false
Settled (calls, err e) = any releases calls ≡ true

and_then-Settled :
    {E : Type 0} (a b : List Call × Result E (Unit {0}))
    → Settled a
    → Settled b
    → Settled (and_then a b)
and_then-Settled (x, ok _) (y, ok _) p q = rw any-append (ground arith)
and_then-Settled (x, ok _) (y, err e) p q = rw any-append (ground arith)
and_then-Settled (x, err e) b p q = p

or_abort-Settled :
    {E : Type 0} (abort : E → E) (call : Call) (r : Result E (Unit {0}))
    → releases call ≡ false
    → Settled (or_abort abort call r)
unfolding any
or_abort-Settled abort call (ok _) h = rw h refl
or_abort-Settled abort call (err e) h = rw h refl

-- All the invalidations were published, or there was an error and no reply.
abbrev Published : {E : Type 0} → List Invalidation → List Call × Result E (Unit {0}) → Type 0
Published l (calls, ok _) = calls ≡ map publish_invalidation l
Published l (calls, err e) = any is_reply calls ≡ false

and_then-replied :
    {E : Type 0} (l : List Invalidation) (a b : List Call × Result E (Unit {0}))
    → Published l a
    → any is_reply (and_then a b).0 ≡ true
    → (rest : List Call) × ((and_then a b).0 ≡ map publish_invalidation l ++ rest)
and_then-replied l (x, ok _) (y, r) p h = (y, ap (λ (z : List Call). z ++ y) p)
and_then-replied l (x, err e) b p h = absurd (cc)

module _ {E : Type 0} (timeout : E) (is_success : Bool) (payload : Option MessageShape)
    (deadline : ℕ) (publish : Invalidation → Result E (Unit {0}))
    (reply cleanup : Result E (Unit {0})) (abort : E → E) where
  abbrev after_deadline : ℕ → List Call × Result E (Unit {0})
  after_deadline =
      fail_if_response_deadline_expired timeout is_success payload deadline publish reply cleanup
        abort

  abbrev published : List Invalidation → List Call × Result E (Unit {0})
  published = publish_invalidations timeout is_success payload deadline publish reply cleanup abort

  abbrev pub delivered : List Invalidation → ℕ → ℕ → List Call × Result E (Unit {0})
  delivered =
      deliver_prepared_response timeout is_success payload deadline publish reply cleanup abort

  published-Settled : (l : List Invalidation) → Settled (published l)
  unfolding publish_invalidations any
  published-Settled [] = refl
  published-Settled (v ∷ l) =
      and_then-Settled (or_abort abort (publish_invalidation v) (publish v)) (published l)
        (or_abort-Settled abort (publish_invalidation v) (publish v) refl) (published-Settled l)

  after_deadline-Settled : (now : ℕ) → Settled (after_deadline now)
  unfolding fail_if_response_deadline_expired any
  after_deadline-Settled now =
      expired (response_handles_require_cleanup_after_deadline is_success payload deadline now)
        cleanup
    where
      expired :
          (b : Bool) (c : Result E (Unit {0}))
          → Settled (
              if b
              then elim c as (λ _. List Call × Result E (Unit {0})) [
                | ok _ ↦ (cleanup_expired_response_handles ∷ [], err timeout)
                | err e ↦ (cleanup_expired_response_handles ∷ [], err e)
              ]
              else ([], ok tt))
      expired true (ok _) = refl
      expired true (err e) = refl
      expired false c = refl

  delivered-Settled :
      (l : List Invalidation) (before after : ℕ) → Settled (delivered l before after)
  unfolding deliver_prepared_response
  delivered-Settled l before after =
      and_then-Settled (published l)
        (and_then (after_deadline before)
          (and_then (or_abort abort publish_reply reply) (after_deadline after)))
        (published-Settled l)
        (and_then-Settled (after_deadline before)
          (and_then (or_abort abort publish_reply reply) (after_deadline after))
          (after_deadline-Settled before)
          (and_then-Settled (or_abort abort publish_reply reply) (after_deadline after)
            (or_abort-Settled abort publish_reply reply refl) (after_deadline-Settled after)))

  publish_step :
      (v : Invalidation) (l : List Invalidation) (a b : List Call × Result E (Unit {0}))
      → Published (v ∷ []) a
      → Published l b
      → Published (v ∷ l) (and_then a b)
  publish_step v l (x, ok _) (y, ok _) p q = rw (p, q) refl
  publish_step v l (x, ok _) (y, err e) p q = rw (any-append, p, q) (unfold any in refl)
  publish_step v l (x, err e) b p q = p

  published-Published : (l : List Invalidation) → Published l (published l)
  unfolding publish_invalidations any
  published-Published [] = refl
  published-Published (v ∷ l) =
      publish_step v l (or_abort abort (publish_invalidation v) (publish v)) (published l)
        (first (publish v)) (published-Published l)
    where
      first :
          (r : Result E (Unit {0})) → Published (v ∷ []) (or_abort abort (publish_invalidation v) r)
      first (ok _) = refl
      first (err e) = refl

  -- A delivery fails exactly if it has called for the release of the response's handles: by the abort
  -- after a publication that failed, or by the cleanup after the deadline, whatever that call answered.
  pub delivered-releases :
      (l : List Invalidation) (before after : ℕ)
      → any releases (delivered l before after).0 ≡ not (is_ok (delivered l before after).1)
  delivered-releases l before after =
      settled (delivered l before after) (delivered-Settled l before after)
    where
      settled :
          (r : List Call × Result E (Unit {0})) → Settled r → any releases r.0 ≡ not (is_ok r.1)
      settled (calls, ok _) h = h
      settled (calls, err e) h = h

  -- A reply is published only after every invalidation of the response was published, in their order.
  pub delivered-replied :
      (l : List Invalidation) (before after : ℕ)
      → any is_reply (delivered l before after).0 ≡ true
      → (rest : List Call) × ((delivered l before after).0 ≡ map publish_invalidation l ++ rest)
  unfolding deliver_prepared_response
  delivered-replied l before after =
      and_then-replied l (published l)
        (and_then (after_deadline before)
          (and_then (or_abort abort publish_reply reply) (after_deadline after)))
        (published-Published l)
