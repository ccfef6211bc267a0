-- ===== src/Fuse/PathSet.antt =====
-- `BTreeSet<String>`: the paths of an inode, in the order of their bytes.
use fabric_fs.Prelude.{
  ℕ, ◌≡◌, refl, Bool, true, false, ◌&&◌, ◌||◌, not, Option, none, some, List, [], ◌∷◌, ltb, ◌==◌,
  ◌===◌, if◌then◌else◌, bytes_eq, arith, is_empty,
}
use fabric_fs.Prelude.Eq.{bytes_beq_iff}

unfoldable pub bytes_lt : List ℕ → List ℕ → Bool
bytes_lt [] [] = false
bytes_lt [] (y ∷ ys) = true
bytes_lt (x ∷ xs) [] = false
bytes_lt (x ∷ xs) (y ∷ ys) = ltb x y || (x == y && bytes_lt xs ys)

unfoldable pub member : List ℕ → List (List ℕ) → Bool
member p [] = false
member p (q ∷ s) = p === q || member p s

unfoldable pub insert : List ℕ → List (List ℕ) → List (List ℕ)
insert p [] = p ∷ []
insert p (q ∷ s) =
    let later = q ∷ insert p s in
    if p === q then q ∷ s else if bytes_lt p q then p ∷ q ∷ s else later

unfoldable pub remove : List ℕ → List (List ℕ) → List (List ℕ)
remove p [] = []
remove p (q ∷ s) = let rest = remove p s in if p === q then rest else q ∷ rest

-- The least path.
abbrev pub first : List (List ℕ) → Option (List ℕ)
first [] = none
first (p ∷ s) = some p

pub member-insert :
    (q p : List ℕ) (s : List (List ℕ)) → member q (insert p s) ≡ (q === p || member q s)
unfolding member insert
member-insert q p [] = refl
member-insert q p (r ∷ s) =
    ground (arith, member-insert q p s, bytes_beq_iff q p, bytes_beq_iff p r, bytes_beq_iff q r)

pub member-remove :
    (q p : List ℕ) (s : List (List ℕ)) → member q (remove p s) ≡ (not (q === p) && member q s)
unfolding member remove
member-remove q p [] = ground arith
member-remove q p (r ∷ s) =
    ground (arith, member-remove q p s, bytes_beq_iff q p, bytes_beq_iff p r, bytes_beq_iff q r)

pub member-empty : (q : List ℕ) (s : List (List ℕ)) → is_empty s ≡ true → member q s ≡ false
unfolding member
member-empty q [] h = refl
member-empty q (p ∷ s) h = cc
