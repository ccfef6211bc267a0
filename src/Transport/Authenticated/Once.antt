-- ===== src/Transport/Authenticated/Once.antt =====
-- fabricfs-transport/src/policy.rs, `AuthenticatedReplayCache`: a request and its replays.
use fabric_fs.Prelude.{
  ℕ, ◌+◌, ◌-◌, ◌≤◌, ◌<◌, ◌≡◌, ◌≢◌, refl, sym, Bool, true, false, Option, none, some, List, [], ◌∷◌,
  any, ◌||◌, ===_eq, String, ◌===◌, string_eq, min, leb, saturating_add, arith, Bool-cases, inl,
  inr,
}
use fabric_fs.Prelude.Map
use fabric_fs.Prelude.Map.{Map, bind_value, get-filter_map, get-insert, get-insert_self}
use fabric_fs.Transport.Authenticated.{
  Arrival, arrive, arrive_all, ReplayCache, unexpired, discard_expired, is_live, claim,
  authenticated_replay_or_expiry_response,
}

-- The token is known until a time of the monotonic clock, or longer.
abbrev until : ℕ → Option ℕ → Bool
until t none = false
until t (some deadline) = leb t deadline

unfoldable pub remembers : ReplayCache → String → ℕ → Bool
remembers seen token t = until t (Map.get seen token)

-- A reading of the clock, by which the cache discards and looks up, that has come to the time.
abbrev pub reads_late : ℕ → Arrival → Bool
reads_late t a = leb t a.t1 || leb t a.t2

until-unexpired :
    (o : Option ℕ) (t now : ℕ)
    → now < t
    → until t o ≡ true
    → until t (bind_value (unexpired now) o) ≡ true
until-unexpired none t now early h = h
until-unexpired (some deadline) t now early h = ground arith

discard_expired-remembers :
    (seen : ReplayCache) (token : String) (t now : ℕ)
    → now < t
    → remembers seen token t ≡ true
    → remembers (discard_expired seen now) token t ≡ true
unfolding remembers discard_expired
discard_expired-remembers seen token t now early h =
    rw get-filter_map (until-unexpired (Map.get seen token) t now early h)

live-until : (o : Option ℕ) (t now : ℕ) → now < t → until t o ≡ true → is_live now o ≡ true
live-until none t now early h = absurd (cc)
live-until (some deadline) t now early h = ground arith

-- A token that is remembered longer than the clock shows is not claimed again.
claim-refused :
    (seen : ReplayCache) (token : String) (ttl t0 t1 t2 t : ℕ)
    → remembers seen token t ≡ true
    → t1 < t
    → t2 < t
    → (claim seen token ttl t0 t1 t2).1 ≡ false
unfolding claim
claim-refused seen token ttl t0 t1 t2 t h early1 early2 =
    rw
      (live-until (Map.get (discard_expired seen t1) token) t t2 early2
        (unfold remembers in discard_expired-remembers seen token t t1 early1 h))
      refl

-- Whatever is claimed, a token stays remembered while the clock has not come to its time.
claim-remembers :
    (seen : ReplayCache) (token other : String) (ttl t0 t1 t2 t : ℕ)
    → remembers seen token t ≡ true
    → t1 < t
    → t2 < t
    → remembers (claim seen other ttl t0 t1 t2).0 token t ≡ true
unfolding claim
claim-remembers seen token other ttl t0 t1 t2 t h early1 early2 =
    elim (Bool-cases (is_live t2 (Map.get (discard_expired seen t1) other))) [
      | inl live ↦ rw live kept
      | inr fresh ↦ rw fresh (inserted fresh (unfold remembers in kept))
    ]
  where
    kept : remembers (discard_expired seen t1) token t ≡ true
    kept = discard_expired-remembers seen token t t1 early1 h

    inserted :
        is_live t2 (Map.get (discard_expired seen t1) other) ≡ false
        → until t (Map.get (discard_expired seen t1) token) ≡ true
        → remembers (Map.insert (discard_expired seen t1) other (t0 + ttl)) token t ≡ true
    inserted fresh g = elim (Bool-cases (other === token)) [
      | inl same ↦
          let live : is_live t2 (Map.get (discard_expired seen t1) other) ≡ true =
            rw (===_eq other token same)
              (live-until (Map.get (discard_expired seen t1) token) t t2 early2 g) in
          absurd (cc)
      | inr different ↦ unfold remembers in rw (get-insert, different) g
    ]

claim-fresh :
    (seen : ReplayCache) (token : String) (ttl t0 t1 t2 : ℕ)
    → (claim seen token ttl t0 t1 t2).1 ≡ true
    → remembers (claim seen token ttl t0 t1 t2).0 token (t0 + ttl) ≡ true
unfolding claim
claim-fresh seen token ttl t0 t1 t2 =
    elim (Bool-cases (is_live t2 (Map.get (discard_expired seen t1) token))) [
      | inl live ↦ rw live λ h. absurd (cc)
      | inr fresh ↦ rw fresh λ h. (unfold remembers in rw get-insert_self (ground arith))
    ]

arrive-remembers :
    (seen : ReplayCache) (max_ttl : ℕ) (a : Arrival) (token : String) (t : ℕ)
    → remembers seen token t ≡ true
    → reads_late t a ≡ false
    → remembers (arrive seen max_ttl a).0 token t ≡ true
arrive-remembers seen max_ttl a token t h early =
    unfold authenticated_replay_or_expiry_response in
    ground (
      arith,
      claim-remembers seen token a.token (min a.deadline (saturating_add a.now max_ttl) - a.now)
          a.t0 a.t1 a.t2 t,
    )

arrive_all-remembers :
    (seen : ReplayCache) (max_ttl : ℕ) (between : List Arrival) (token : String) (t : ℕ)
    → remembers seen token t ≡ true
    → any (reads_late t) between ≡ false
    → remembers (arrive_all seen max_ttl between) token t ≡ true
unfolding arrive_all any
arrive_all-remembers seen max_ttl [] token t h early = h
arrive_all-remembers seen max_ttl (a ∷ rest) token t h early =
    arrive_all-remembers (arrive seen max_ttl a).0 max_ttl rest token t
      (arrive-remembers seen max_ttl a token t h (ground arith)) (ground arith)

-- A request that gets through has a deadline in the future, within the longest time to live, and its
-- token is then remembered for as long as the deadline allows.
pub accepted-remembers :
    (seen : ReplayCache) (max_ttl deadline : ℕ) (token : String) (now t0 t1 t2 : ℕ)
    → (authenticated_replay_or_expiry_response seen max_ttl deadline token now t0 t1 t2).1 ≡ none
    → (now < deadline)
      × (deadline ≤ now + max_ttl)
      × (remembers
            (authenticated_replay_or_expiry_response seen max_ttl deadline token now t0 t1 t2).0
            token
            (t0 + (deadline - now))
          ≡ true)
accepted-remembers seen max_ttl deadline token now t0 t1 t2 h =
    (tests.0, tests.1, unfold authenticated_replay_or_expiry_response in ground (arith, kept))
  where
    tests :
        (now < deadline)
        × (deadline ≤ now + max_ttl)
        × ((claim seen token (min deadline (saturating_add now max_ttl) - now) t0 t1 t2).1 ≡ true)
    tests = unfold authenticated_replay_or_expiry_response in ground arith

    whole : min deadline (saturating_add now max_ttl) - now ≡ deadline - now
    whole = unfold authenticated_replay_or_expiry_response in ground arith

    kept :
        remembers
          (claim seen token (min deadline (saturating_add now max_ttl) - now) t0 t1 t2).0
          token
          (t0 + (deadline - now))
        ≡ true
    kept = rw whole (claim-fresh seen token (deadline - now) t0 t1 t2 (rw (sym whole) tests.2))

-- A request that was let through is not let through again, whatever requests come in between, with
-- the same token or with others, as long as the monotonic clock has not run, since the first one was
-- claimed at `t0`, for the time that was left of its deadline.
pub accepted-once :
    (seen : ReplayCache) (max_ttl : ℕ) (first again : Arrival) (between : List Arrival)
    → (arrive seen max_ttl first).1 ≡ none
    → again.token ≡ first.token
    → any (reads_late (first.t0 + (first.deadline - first.now))) between ≡ false
    → reads_late (first.t0 + (first.deadline - first.now)) again ≡ false
    → (arrive (arrive_all (arrive seen max_ttl first).0 max_ttl between) max_ttl again).1 ≢ none
accepted-once seen max_ttl first again between accepted same early early' =
    let (ahead, within, known) =
      accepted-remembers seen max_ttl first.deadline first.token first.now first.t0 first.t1
        first.t2 accepted in
    let t = first.t0 + (first.deadline - first.now) in
    let after = arrive_all (arrive seen max_ttl first).0 max_ttl between in
    let kept : remembers after again.token t ≡ true = rw same (
      arrive_all-remembers (arrive seen max_ttl first).0 max_ttl between first.token t known
        early) in
    unfold authenticated_replay_or_expiry_response in
    ground (
      arith,
      claim-refused after again.token
          (min again.deadline (saturating_add again.now max_ttl) - again.now) again.t0 again.t1
          again.t2 t kept,
    )
