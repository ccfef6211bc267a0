-- ===== src/Transport/Delivering.antt =====
-- fabricfs-transport/src/policy.rs, `deliver_prepared_response`: the invalidations of a response are
-- published before the reply, and on failure its handles are released. The callbacks are arguments:
-- what each publication and the cleanup answer, and what the abort makes of an error; `before` and
-- `after` are the two readings of the clock. What was called is returned as a list.
pub mod Order
use fabric_fs.Prelude.{
  ℕ, ◌≡◌, Bool, true, false, ◌&&◌, ◌||◌, not, Option, none, some, List, [], ◌∷◌, ◌++◌, ◌==◌, leb,
  if◌then◌else◌, Result, ok, err,
}
use fabric_fs.Protocol.Invalidation.{Invalidation}
use fabric_fs.Protocol.OperationSpec.Types.{MessageShape, open_response, create_response}

pub data Call : Type 0 where
  publish_invalidation : Invalidation → Call
  publish_reply abort_response_handles cleanup_expired_response_handles : Call

abbrev opens : Option MessageShape → Bool
opens (some open_response) = true
opens (some create_response) = true
opens _ = false

-- Of the response, `response.ok` and the kind of its payload.
unfoldable pub response_returns_backend_handle : Bool → Option MessageShape → Bool
response_returns_backend_handle is_success payload = is_success && opens payload

unfoldable pub response_handles_require_cleanup_after_deadline :
    Bool → Option MessageShape → ℕ → ℕ → Bool
response_handles_require_cleanup_after_deadline is_success payload deadline now =
    response_returns_backend_handle is_success payload && not (deadline == 0) && leb deadline now

-- `?`: the next calls are made if these ended well.
abbrev pub and_then :
    {E : Type 0}
    → List Call × Result E (Unit {0})
    → List Call × Result E (Unit {0})
    → List Call × Result E (Unit {0})
and_then (calls, ok _) (next, r) = (calls ++ next, r)
and_then (calls, err e) (next, r) = (calls, err e)

-- `.map_err(abort)?`
abbrev pub or_abort :
    {E : Type 0} → (E → E) → Call → Result E (Unit {0}) → List Call × Result E (Unit {0})
or_abort abort call (ok _) = (call ∷ [], ok tt)
or_abort abort call (err e) = (call ∷ abort_response_handles ∷ [], err (abort e))

module _ {E : Type 0} (timeout : E) (is_success : Bool) (payload : Option MessageShape)
    (deadline : ℕ) (publish : Invalidation → Result E (Unit {0}))
    (reply cleanup : Result E (Unit {0})) (abort : E → E) where
  unfoldable pub fail_if_response_deadline_expired : ℕ → List Call × Result E (Unit {0})
  fail_if_response_deadline_expired now =
      if response_handles_require_cleanup_after_deadline is_success payload deadline now
      then elim cleanup [
        | ok _ ↦ (cleanup_expired_response_handles ∷ [], err timeout)
        | err e ↦ (cleanup_expired_response_handles ∷ [], err e)
      ]
      else ([], ok tt)

  unfoldable pub publish_invalidations : List Invalidation → List Call × Result E (Unit {0})
  publish_invalidations [] = ([], ok tt)
  publish_invalidations (v ∷ rest) =
      and_then (or_abort abort (publish_invalidation v) (publish v)) (publish_invalidations rest)

  unfoldable pub deliver_prepared_response :
      List Invalidation → ℕ → ℕ → List Call × Result E (Unit {0})
  deliver_prepared_response invalidations before after =
      and_then (publish_invalidations invalidations) (
        and_then (fail_if_response_deadline_expired before)
          (and_then (or_abort abort publish_reply reply) (fail_if_response_deadline_expired after)))
