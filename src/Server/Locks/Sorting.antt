-- ===== src/Server/Locks/Sorting.antt =====
-- `sort_by_key` sorts, and keeps the ranges and the covered bytes.
use fabric_fs.Prelude.{
  ℕ, ◌≡◌, refl, Bool, true, false, ◌||◌, List, [], ◌∷◌, arith, any, All, Bool-cases, inl, inr,
}
use fabric_fs.Server.Locks.{BackendLock, lex, key_le, insert_sorted, sort_by_key}

lex_trans :
    (a b c : ℕ) (r s t : Bool)
    → (r ≡ true → s ≡ true → t ≡ true)
    → lex a b r ≡ true
    → lex b c s ≡ true
    → lex a c t ≡ true
unfolding lex
lex_trans a b c r s t rest p q = ground arith

lex_total : (a b : ℕ) (r s : Bool) → (r ≡ false → s ≡ true) → lex a b r ≡ false → lex b a s ≡ true
unfolding lex
lex_total a b r s rest p = ground arith

key_le_trans : (x y z : BackendLock) → key_le x y ≡ true → key_le y z ≡ true → key_le x z ≡ true
unfolding key_le
key_le_trans x y z = lex_trans x.owner y.owner z.owner _ _ _ (
    lex_trans x.typ y.typ z.typ _ _ _ (
      lex_trans x.pid y.pid z.pid _ _ _
        (lex_trans x.handle y.handle z.handle _ _ _ (λ p q. ground arith))))

key_le_total : (x y : BackendLock) → key_le x y ≡ false → key_le y x ≡ true
unfolding key_le
key_le_total x y = lex_total x.owner y.owner _ _ (
    lex_total x.typ y.typ _ _
      (lex_total x.pid y.pid _ _ (lex_total x.handle y.handle _ _ (λ p. ground arith))))

abbrev pub AllAfter : BackendLock → List BackendLock → Type 0
AllAfter x = All (λ y. key_le x y ≡ true)

abbrev pub IsSorted : List BackendLock → Type 0
IsSorted [] = Unit
IsSorted (x ∷ xs) = AllAfter x xs × IsSorted xs

AllAfter-trans :
    (x y : BackendLock) (ys : List BackendLock) → key_le x y ≡ true → AllAfter y ys → AllAfter x ys
AllAfter-trans x y [] h a = tt
AllAfter-trans x y (z ∷ zs) h a = (key_le_trans x y z h a.0, AllAfter-trans x y zs h a.1)

AllAfter-insert_sorted :
    (w x : BackendLock) (ys : List BackendLock)
    → key_le w x ≡ true
    → AllAfter w ys
    → AllAfter w (insert_sorted x ys)
unfolding insert_sorted
AllAfter-insert_sorted w x [] h a = (h, tt)
AllAfter-insert_sorted w x (y ∷ ys) h a = elim (Bool-cases (key_le x y)) [
  | inl first ↦ rw first (h, a)
  | inr later ↦ rw later (a.0, AllAfter-insert_sorted w x ys h a.1)
]

insert_sorted-IsSorted :
    (x : BackendLock) (ys : List BackendLock) → IsSorted ys → IsSorted (insert_sorted x ys)
unfolding insert_sorted
insert_sorted-IsSorted x [] s = (tt, tt)
insert_sorted-IsSorted x (y ∷ ys) s = elim (Bool-cases (key_le x y)) [
  | inl first ↦ rw first ((first, AllAfter-trans x y ys first s.0), s)
  | inr later ↦
      rw later (
        AllAfter-insert_sorted y x ys (key_le_total x y later) s.0,
        insert_sorted-IsSorted x ys s.1,
      )
]

pub sort_by_key-IsSorted : (locks : List BackendLock) → IsSorted (sort_by_key locks)
unfolding sort_by_key
sort_by_key-IsSorted [] = tt
sort_by_key-IsSorted (x ∷ xs) = insert_sorted-IsSorted x (sort_by_key xs) (sort_by_key-IsSorted xs)

any-insert_sorted :
    (p : BackendLock → Bool) (x : BackendLock) (ys : List BackendLock)
    → any p (insert_sorted x ys) ≡ (p x || any p ys)
unfolding insert_sorted any
any-insert_sorted p x [] = refl
any-insert_sorted p x (y ∷ ys) = ground (arith, any-insert_sorted p x ys)

pub any-sort_by_key :
    (p : BackendLock → Bool) (locks : List BackendLock) → any p (sort_by_key locks) ≡ any p locks
unfolding sort_by_key any
any-sort_by_key p [] = refl
any-sort_by_key p (x ∷ xs) = rw (any-insert_sorted p x (sort_by_key xs), any-sort_by_key p xs)

module _ {κ} (P : BackendLock → Type κ) where
  All-insert_sorted :
      (x : BackendLock) (ys : List BackendLock) → P x → All P ys → All P (insert_sorted x ys)
  unfolding insert_sorted
  All-insert_sorted x [] h a = (h, a)
  All-insert_sorted x (y ∷ ys) h a = elim (Bool-cases (key_le x y)) [
    | inl first ↦ rw first (h, a)
    | inr later ↦ rw later (a.0, All-insert_sorted x ys h a.1)
  ]

  pub All-sort_by_key : (locks : List BackendLock) → All P locks → All P (sort_by_key locks)
  unfolding sort_by_key
  All-sort_by_key [] a = a
  All-sort_by_key (x ∷ xs) a = All-insert_sorted x (sort_by_key xs) a.0 (All-sort_by_key xs a.1)
