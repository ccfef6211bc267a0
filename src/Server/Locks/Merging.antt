-- ===== src/Server/Locks/Merging.antt =====
-- `merge_path_locks` keeps what each holder has locked, byte by byte.
use fabric_fs.Prelude.{
  ℕ, ◌≤◌, ◌≡◌, refl, true, ◌&&◌, ◌||◌, List, [], ◌∷◌, arith, leb, ◌==◌, u64_max, saturating_add,
  max, Bool-cases, inl, inr, ◌∙◌,
}
use fabric_fs.Server.Locks.{
  BackendLock, lex, key_le, sort_by_key, adjacent, same_holder, merge_into, merge_sorted,
  merge_path_locks,
}
use fabric_fs.Server.Locks.Coverage.{Holder, covered, covers, IsRange, AllRanges}
use fabric_fs.Server.Locks.Sorting.{
  IsSorted, AllAfter, sort_by_key-IsSorted, any-sort_by_key, All-sort_by_key,
}

abbrev joined : BackendLock → BackendLock → BackendLock
joined last lock = record last { end = max last.end lock.end }

-- Among the locks of one holder the order is that of the starts.
start-le :
    (last lock : BackendLock)
    → same_holder last lock ≡ true
    → key_le last lock ≡ true
    → last.start ≤ lock.start
unfolding same_holder key_le lex
start-le last lock s k = ground arith

range_union :
    (s e s' e' b : ℕ)
    → s ≤ s'
    → e' ≤ u64_max
    → ((e == u64_max) || leb s' (saturating_add e 1)) ≡ true
    → (leb s b && leb b (max e e')) ≡ ((leb s b && leb b e) || (leb s' b && leb b e'))
range_union s e s' e' b h fits adj = ground arith

covers-joined :
    (h : Holder) (b : ℕ) (last lock : BackendLock)
    → same_holder last lock ≡ true
    → key_le last lock ≡ true
    → adjacent last lock ≡ true
    → IsRange lock
    → covers h b (joined last lock) ≡ (covers h b last || covers h b lock)
unfolding same_holder covers adjacent
covers-joined h b last lock s k adj r = ground (
  arith,
  range_union last.start last.end lock.start lock.end b (start-le last lock s k) r.fits adj,
)

-- A merged lock has the key of its first part.
AllAfter-joined :
    (last lock : BackendLock) (rest : List BackendLock)
    → AllAfter last rest
    → AllAfter (joined last lock) rest
unfolding key_le
AllAfter-joined last lock [] a = tt
AllAfter-joined last lock (x ∷ xs) a = (a.0, AllAfter-joined last lock xs a.1)

covered-merge_into :
    (h : Holder) (b : ℕ) (last : BackendLock) (rest : List BackendLock)
    → AllAfter last rest
    → IsSorted rest
    → AllRanges rest
    → covered h b (merge_into last rest) ≡ (covers h b last || covered h b rest)
unfolding merge_into covered
covered-merge_into h b last [] a s r = refl
covered-merge_into h b last (lock ∷ rest) a s r =
    elim (Bool-cases (same_holder last lock && adjacent last lock)) [
      | inl joins ↦ ground (
        arith,
        covered-merge_into h b (joined last lock) rest (AllAfter-joined last lock rest a.1) s.1 r.1,
        covers-joined h b last lock,
      )
      | inr splits ↦ ground (arith, covered-merge_into h b lock rest s.0 s.1 r.1)
    ]

-- In locks whose ranges are in order and within u64, a byte is locked by a holder after the merge
-- exactly when it was before.
pub covered-merge_path_locks :
    (h : Holder) (b : ℕ) (locks : List BackendLock)
    → AllRanges locks
    → covered h b (merge_path_locks locks) ≡ covered h b locks
unfolding merge_path_locks covered
covered-merge_path_locks h b locks r =
    go (sort_by_key locks) (sort_by_key-IsSorted locks) (All-sort_by_key IsRange locks r)
    ∙ any-sort_by_key (covers h b) locks
  where
    go :
        (sorted : List BackendLock)
        → IsSorted sorted
        → AllRanges sorted
        → covered h b (merge_sorted sorted) ≡ covered h b sorted
    go [] s a = refl
    go (x ∷ xs) s a = covered-merge_into h b x xs s.0 s.1 a.1

IsRange-joined :
    (last lock : BackendLock) → IsRange last → IsRange lock → IsRange (joined last lock)
IsRange-joined last lock p q = ground arith

merge_into-AllRanges :
    (last : BackendLock) (rest : List BackendLock)
    → IsRange last
    → AllRanges rest
    → AllRanges (merge_into last rest)
unfolding merge_into
merge_into-AllRanges last [] p r = (p, tt)
merge_into-AllRanges last (lock ∷ rest) p r =
    elim (Bool-cases (same_holder last lock && adjacent last lock)) [
      | inl joins ↦
          rw joins
            (merge_into-AllRanges (joined last lock) rest (IsRange-joined last lock p r.0) r.1)
      | inr splits ↦ rw splits (p, merge_into-AllRanges lock rest r.0 r.1)
    ]

pub merge_path_locks-AllRanges :
    (locks : List BackendLock) → AllRanges locks → AllRanges (merge_path_locks locks)
unfolding merge_path_locks
merge_path_locks-AllRanges locks r = go (sort_by_key locks) (All-sort_by_key IsRange locks r)
  where
    go : (sorted : List BackendLock) → AllRanges sorted → AllRanges (merge_sorted sorted)
    go [] a = a
    go (x ∷ xs) a = merge_into-AllRanges x xs a.0 a.1
