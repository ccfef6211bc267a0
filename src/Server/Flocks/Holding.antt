-- ===== src/Server/Flocks/Holding.antt =====
-- Which owner holds which lock of a file before and after `flock`, and that an exclusive lock is the
-- only one.
use fabric_fs.Prelude.{
  ℕ, ◌≡◌, refl, ap, sym, ◌∙◌, Bool, true, false, ◌&&◌, ◌||◌, not, List, [], ◌∷◌, ◌++◌, ◌==◌, ◌===◌,
  if◌then◌else◌, Result, ok, err, any, any-append, retain, bytes_eq, arith, Bool-cases,
  Option-cases, inl, inr, ==_iff, ok-injective,
}
use fabric_fs.Prelude.Map
use fabric_fs.Prelude.Map.{Map}
use fabric_fs.Prelude.Eq.{bytes_beq_iff}
use fabric_fs.Server.Flocks.{
  BackendFlock, FlockTable, lock_ex, lock_un, eagain, eopnotsupp, is_nonblocking,
  validate_flock_operation, conflicts, flocks_at, or_default, put_or_remove, unlock_owned, push,
  flock_typ, flock,
}

abbrev pub is_flock : ℕ → ℕ → BackendFlock → Bool
is_flock owner typ lock = lock.owner == owner && lock.typ == typ

-- The owner holds a lock of that type on the file.
unfoldable pub flock_held : FlockTable → List ℕ → ℕ → ℕ → Bool
flock_held table key owner typ = any (is_flock owner typ) (flocks_at table key)

flocks_at-put_or_remove :
    (table : FlockTable) (key : List ℕ) (locks : List BackendFlock) (j : List ℕ)
    → flocks_at (put_or_remove table key locks) j ≡ (if key === j then locks else flocks_at table j)
unfolding flocks_at
flocks_at-put_or_remove table key [] j = ground (arith, Map.get-remove table key j)
flocks_at-put_or_remove table key (lock ∷ rest) j =
    ground (arith, Map.get-insert table key j (lock ∷ rest))

flocks_at-unlock_owned :
    (table : FlockTable) (key : List ℕ) (owner : ℕ) (j : List ℕ)
    → flocks_at (unlock_owned table key owner) j ≡ (
        if key === j
        then retain (λ lock. not (lock.owner == owner)) (flocks_at table key)
        else flocks_at table j)
unfolding unlock_owned flocks_at retain
flocks_at-unlock_owned table key owner j = elim (Option-cases (Map.get table key)) [
  | inl absent ↦ rw (absent, unlock_owned) (ground (arith, bytes_beq_iff key j))
  | inr (locks, present) ↦
      rw (present, unlock_owned)
        (flocks_at-put_or_remove table key (retain (λ lock. not (lock.owner == owner)) locks) j)
]

held-retain :
    (locks : List BackendFlock) (owner o t : ℕ)
    → any (is_flock o t) (retain (λ lock. not (lock.owner == owner)) locks)
      ≡ (not (owner == o) && any (is_flock o t) locks)
unfolding any retain
held-retain [] owner o t = ground arith
held-retain (lock ∷ locks) owner o t = ground (arith, held-retain locks owner o t)

held-unlock_owned :
    (table : FlockTable) (key : List ℕ) (owner : ℕ) (j : List ℕ) (o t : ℕ)
    → flock_held (unlock_owned table key owner) j o t
      ≡ (not ((key === j) && owner == o) && flock_held table j o t)
unfolding flock_held
held-unlock_owned table key owner j o t = elim (Bool-cases (key === j)) [
  | inl same ↦
      rw (flocks_at-unlock_owned, same)
        (held-retain (flocks_at table key) owner o t
          ∙ ap (λ k. not (owner == o) && any (is_flock o t) (flocks_at table k))
              ((bytes_beq_iff key j).0 same))
  | inr other ↦ rw (flocks_at-unlock_owned, other) refl
]

flocks_at-push :
    (table : FlockTable) (key : List ℕ) (lock : BackendFlock) (j : List ℕ)
    → flocks_at (push table key lock) j
      ≡ (if key === j then flocks_at table key ++ lock ∷ [] else flocks_at table j)
unfolding flocks_at push
flocks_at-push table key lock j =
    ground (arith, Map.get-insert table key j (or_default (Map.get table key) ++ lock ∷ []))

held-push :
    (table : FlockTable) (key : List ℕ) (lock : BackendFlock) (j : List ℕ) (o t : ℕ)
    → flock_held (push table key lock) j o t
      ≡ (((key === j) && is_flock o t lock) || flock_held table j o t)
unfolding flock_held any
held-push table key lock j o t = elim (Bool-cases (key === j)) [
  | inl same ↦
      rw (flocks_at-push, same, any-append)
        (ground
          (arith, ap (λ k. any (is_flock o t) (flocks_at table k)) ((bytes_beq_iff key j).0 same)))
  | inr other ↦ rw (flocks_at-push, other) refl
]

-- What an accepted operation makes of the locks: the owner's lock on the file is replaced by the one
-- asked for, or given up, and every other lock stays.
module _ (table : FlockTable) (key : List ℕ) (handle owner operation : ℕ) where
  abbrev pub flocked : FlockTable × Result ℕ (Unit {0})
  flocked = flock table key handle owner operation

  abbrev pub expected_flock : ℕ → List ℕ → ℕ → ℕ → Bool
  expected_flock typ j o t =
      if (key === j) && owner == o then not (typ == lock_un) && typ == t else flock_held table j o t

  -- How `flock` ends: with an error and the table as it was, or by setting or giving up the lock.
  data Outcome : Type 0 where
    failed : (e : ℕ) → flocked ≡ (table, err e) → Outcome
    freed :
        validate_flock_operation operation ≡ ok lock_un
        → flocked ≡ (unlock_owned table key owner, ok tt)
        → Outcome
    granted :
        (typ : ℕ)
        → validate_flock_operation operation ≡ ok typ
        → (typ == lock_un) ≡ false
        → any (λ lock. conflicts lock owner typ) (flocks_at table key) ≡ false
        → flocked ≡ (
          push
              (unlock_owned table key owner)
              key
              (record { handle = handle; owner = owner; typ = typ }),
          ok tt,
        )
        → Outcome

  outcome : Outcome
  unfolding flock unlock_owned
  outcome = by_operation (validate_flock_operation operation) refl
    where
      by_operation : (r : Result ℕ ℕ) → validate_flock_operation operation ≡ r → Outcome
      by_operation (err e) h = failed e (rw (h, flock) refl)
      by_operation (ok typ) h = elim (Bool-cases (typ == lock_un)) [
        | inl un ↦
            freed (h ∙ ap {B = Result ℕ ℕ} ok ((==_iff typ lock_un).0 un))
              (rw (h, flock) (unfold flock_typ in rw un refl))
        | inr lk ↦
            elim (Bool-cases (any (λ lock. conflicts lock owner typ) (flocks_at table key))) [
              | inl clash ↦
                  failed (if is_nonblocking operation then eagain else eopnotsupp)
                    (rw (h, flock) (unfold flock_typ in rw (lk, clash) refl))
              | inr free ↦
                  granted typ h lk free (rw (h, flock) (unfold flock_typ in rw (lk, free) refl))
            ]
      ]

  -- An accepted operation replaces the owner's lock on the file by the one asked for, or gives it up,
  -- and every other lock stays.
  pub held-flock :
      (typ : ℕ) (j : List ℕ) (o t : ℕ)
      → validate_flock_operation operation ≡ ok typ
      → flocked.1 ≡ ok tt
      → flock_held flocked.0 j o t ≡ expected_flock typ j o t
  held-flock typ j o t valid accepted = by_outcome outcome
    where
      by_outcome : Outcome → flock_held flocked.0 j o t ≡ expected_flock typ j o t
      by_outcome (failed e f) = absurd (cc)
      by_outcome (freed un f) =
          rw (f, ok-injective (sym valid ∙ un))
            (ground (arith, held-unlock_owned table key owner j o t))
      by_outcome (granted typ' valid' lk free f) =
          rw (f, ok-injective (sym valid ∙ valid'))
            (ground (
              arith,
              held-push (unlock_owned table key owner) key
                  (record { handle = handle; owner = owner; typ = typ' }) j o t,
              held-unlock_owned table key owner j o t,
            ))

-- An exclusive lock on a file is the only owner's.
pub record IsExclusive (table : FlockTable) : Type 0 where
  pub exclusive :
      (j : List ℕ) (o t o' t' : ℕ)
      → flock_held table j o t ≡ true
      → flock_held table j o' t' ≡ true
      → (o == o') ≡ false
      → (t == lock_ex) ≡ false

no_conflict :
    (locks : List BackendFlock) (owner typ o t : ℕ)
    → any (λ lock. conflicts lock owner typ) locks ≡ false
    → any (is_flock o t) locks ≡ true
    → (o == owner) ≡ false
    → (t == lock_ex || typ == lock_ex) ≡ false
unfolding any conflicts
no_conflict [] owner typ o t free h other = absurd (cc)
no_conflict (lock ∷ locks) owner typ o t free h other =
    ground (arith, no_conflict locks owner typ o t)

-- In a table where an exclusive lock is the only one, it is after any operation, whatever its outcome.
pub flock-IsExclusive :
    (table : FlockTable) (key : List ℕ) (handle owner operation : ℕ)
    → IsExclusive table
    → IsExclusive (flock table key handle owner operation).0
flock-IsExclusive table key handle owner operation x =
    by_outcome (outcome table key handle owner operation)
  where
    by_outcome :
        Outcome table key handle owner operation
        → IsExclusive (flock table key handle owner operation).0
    by_outcome (failed e f) = rw f x
    by_outcome (freed un f) = rw f (record {
      exclusive = λ j o t o' t' p q other. ground (
        arith,
        held-unlock_owned table key owner j o t,
        held-unlock_owned table key owner j o' t',
        x.exclusive j o t o' t',
      );
    })
    by_outcome (granted typ valid lk free f) = rw f (record {
      exclusive = λ j o t o' t' p q other. ground (
        arith,
        after j o t,
        after j o' t',
        x.exclusive j o t o' t',
        free_of j o t,
        free_of j o' t',
      );
    })
      where
        after :
            (j : List ℕ) (o t : ℕ)
            → flock_held
                (push
                  (unlock_owned table key owner)
                  key
                  (record { handle = handle; owner = owner; typ = typ }))
                j
                o
                t
              ≡ (if (key === j) && owner == o then typ == t else flock_held table j o t)
        after j o t = ground (
          arith,
          held-push (unlock_owned table key owner) key
              (record { handle = handle; owner = owner; typ = typ }) j o t,
          held-unlock_owned table key owner j o t,
        )

        free_of :
            (j : List ℕ) (o t : ℕ)
            → (key === j) ≡ true
            → flock_held table j o t ≡ true
            → (o == owner) ≡ false
            → (t == lock_ex || typ == lock_ex) ≡ false
        free_of j o t same held =
            no_conflict (flocks_at table key) owner typ o t free
              (rw ((bytes_beq_iff key j).0 same) (unfold flock_held in held))
