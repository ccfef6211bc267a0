-- ===== src/Transport/Authenticated.antt =====
-- fabricfs-transport/src/policy.rs, `AuthenticatedReplayCache`: an authenticated request has a deadline
-- and is dispatched once. A reading of the clock is an argument, one for each call of `now`: `now` is
-- the wall clock, in nanoseconds up to u64, and `t0`, `t1`, `t2` the monotonic clock, whose sum with a
-- time to live is taken to fit. The sweeper only discards what is expired, as every claim does first;
-- the mutex is not modelled.
pub mod Once
use fabric_fs.Prelude.{
  ℕ, ◌+◌, ◌-◌, ◌≡◌, Bool, true, false, Option, none, some, List, [], ◌∷◌, String, ◌===◌, string_eq,
  min, ltb, leb, ◌==◌, if◌then◌else◌, saturating_add,
}
use fabric_fs.Prelude.Map
use fabric_fs.Prelude.Map.{Map}

-- The errors that a refused request is answered with.
pub data Errno : Type 0 where
  invalid_argument timed_out permission_denied : Errno

abbrev pub ReplayCache : Type 0
ReplayCache = Map String ℕ

abbrev pub unexpired : ℕ → ℕ → Option ℕ
unexpired now deadline = if ltb now deadline then some deadline else none

unfoldable pub discard_expired : ReplayCache → ℕ → ReplayCache
discard_expired seen now = Map.filter_map (λ token deadline. unexpired now deadline) seen

abbrev pub is_live : ℕ → Option ℕ → Bool
is_live now none = false
is_live now (some deadline) = ltb now deadline

-- `true` if the token is new.
unfoldable pub claim : ReplayCache → String → ℕ → ℕ → ℕ → ℕ → ReplayCache × Bool
claim seen token ttl t0 t1 t2 =
    if is_live t2 (Map.get (discard_expired seen t1) token)
    then (discard_expired seen t1, false)
    else (Map.insert (discard_expired seen t1) token (t0 + ttl), true)

abbrev pub replay_response : Bool → Option Errno
replay_response true = none
replay_response false = some permission_denied

-- `none` lets the request through.
unfoldable pub authenticated_replay_or_expiry_response :
    ReplayCache → ℕ → ℕ → String → ℕ → ℕ → ℕ → ℕ → ReplayCache × Option Errno
authenticated_replay_or_expiry_response seen max_ttl deadline token now t0 t1 t2 =
    if deadline == 0
    then (seen, some invalid_argument)
    else if leb deadline now
    then (seen, some timed_out)
    else if ltb (saturating_add now max_ttl) deadline
    then (seen, some invalid_argument)
    else let (after, fresh) =
        claim seen token (min deadline (saturating_add now max_ttl) - now) t0 t1 t2 in
      (after, replay_response fresh)

-- A request as it arrives, with the clocks' readings.
pub record Arrival : Type 0 where
  pub deadline : ℕ
  pub token : String
  pub now : ℕ
  pub t0 : ℕ
  pub t1 : ℕ
  pub t2 : ℕ

abbrev pub arrive : ReplayCache → ℕ → Arrival → ReplayCache × Option Errno
arrive seen max_ttl a =
    authenticated_replay_or_expiry_response seen max_ttl a.deadline a.token a.now a.t0 a.t1 a.t2

-- The cache after some requests.
unfoldable pub arrive_all : ReplayCache → ℕ → List Arrival → ReplayCache
arrive_all seen max_ttl [] = seen
arrive_all seen max_ttl (a ∷ rest) = arrive_all (arrive seen max_ttl a).0 max_ttl rest

-- `effective_transport_deadline`
unfoldable pub effective_transport_deadline : ℕ → ℕ → ℕ → ℕ
effective_transport_deadline existing timeout now =
    if existing == 0
    then saturating_add now (min timeout 18446744073709551615)
    else min existing (saturating_add now (min timeout 18446744073709551615))
