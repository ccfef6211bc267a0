-- ===== src/Protocol/Path/Subtree.antt =====
-- The subtrees: an order on paths, in which two subtrees with a common path are nested, and the
-- move of a path from one subtree to another.
use mathlib.Core.List.{append_assoc}
use fabric_fs.Prelude.{
  ℕ, ◌≡◌, refl, sym, ap, ◌∙◌, true, false, ◌||◌, List, [], ◌∷◌, ◌++◌, ◌⊎◌, inl, inr, bytes_eq,
  arith, ok,
}
use fabric_fs.Protocol.Path.{path_is_in_subtree, validate_rename_paths}
use fabric_fs.Protocol.Path.Prefix.{is_suffix, in_subtree-append, suffix-in_subtree}

-- `p` is `r` followed by a rest.
abbrev pub Below : List ℕ → List ℕ → Type 0
Below p r = (s : List ℕ) × (p ≡ r ++ s) × (is_suffix s ≡ true)

pub Below-in_subtree : (p r : List ℕ) → Below p r → path_is_in_subtree p r ≡ true
Below-in_subtree p r (s, e, h) = rw e (in_subtree-append r s h)

suffix-append : (s t : List ℕ) → is_suffix s ≡ true → is_suffix t ≡ true → is_suffix (s ++ t) ≡ true
suffix-append [] t hs ht = ht
suffix-append (c ∷ s) t hs ht = hs

-- A subtree of a subtree is a subtree.
pub in_subtree_trans :
    (p q r : List ℕ)
    → path_is_in_subtree p q ≡ true
    → path_is_in_subtree q r ≡ true
    → path_is_in_subtree p r ≡ true
in_subtree_trans p q r a b =
    let (s, e, h) = suffix-in_subtree p q a in
    let (t, f, k) = suffix-in_subtree q r b in
    Below-in_subtree p r
      (t ++ s, e ∙ ap (λ (x : List ℕ). x ++ s) f ∙ append_assoc r t s, suffix-append t s k h)

head_suffix : (r t s : List ℕ) → s ≡ r ++ t → is_suffix s ≡ true → is_suffix r ≡ true
head_suffix [] t s e h = refl
head_suffix (c ∷ r) t [] e h = cc
head_suffix (c ∷ r) t (d ∷ s) e h = ground arith

common :
    (a b s t : List ℕ)
    → is_suffix s ≡ true
    → is_suffix t ≡ true
    → a ++ s ≡ b ++ t
    → Below a b ⊎ Below b a
common [] b s t hs ht e = inr (b, refl, head_suffix b t s e hs)
common (x ∷ a) [] s t hs ht e = inl (x ∷ a, refl, head_suffix (x ∷ a) s t (sym e) ht)
common (x ∷ a) (y ∷ b) s t hs ht e = extend (common a b s t hs ht (ground arith)) (ground arith)
  where
    extend : Below a b ⊎ Below b a → x ≡ y → Below (x ∷ a) (y ∷ b) ⊎ Below (y ∷ b) (x ∷ a)
    extend (inl (u, f, h)) same = inl (u, ground arith, h)
    extend (inr (u, f, h)) same = inr (u, ground arith, h)

-- If a path lies in two subtrees, one of their roots lies in the subtree of the other.
pub subtrees_nested :
    (p a b : List ℕ)
    → path_is_in_subtree p a ≡ true
    → path_is_in_subtree p b ≡ true
    → (path_is_in_subtree a b || path_is_in_subtree b a) ≡ true
subtrees_nested p a b ha hb =
    let (s, e, hs) = suffix-in_subtree p a ha in
    let (t, f, ht) = suffix-in_subtree p b hb in nested (common a b s t hs ht (sym e ∙ f))
  where
    nested : Below a b ⊎ Below b a → (path_is_in_subtree a b || path_is_in_subtree b a) ≡ true
    nested (inl x) = rw (Below-in_subtree a b x)
    nested (inr y) = ground (arith, Below-in_subtree b a y)

-- If the paths of a rename are valid, no path lies both under the old and under the new one.
pub rename-disjoint :
    (p old_path new_path : List ℕ)
    → validate_rename_paths old_path new_path ≡ ok tt
    → path_is_in_subtree p old_path ≡ true
    → path_is_in_subtree p new_path ≡ false
unfolding validate_rename_paths
rename-disjoint p old_path new_path h a = ground (arith, subtrees_nested p old_path new_path)
