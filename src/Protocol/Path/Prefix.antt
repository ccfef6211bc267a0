-- ===== src/Protocol/Path/Prefix.antt =====
-- `strip_prefix`, and membership in a subtree as an equation.
use fabric_fs.Prelude.{
  ℕ, ◌≡◌, refl, sym, Bool, true, Option, none, some, List, [], ◌∷◌, ◌++◌, ◌==◌, ◌===◌, inl, inr,
  bytes_eq, arith, Bool-cases, ◌∙◌,
}
use mathlib.Core.List.{append-nil}
use fabric_fs.Prelude.Eq.{bytes_beq_iff}
use fabric_fs.Protocol.Path.{slash, strip_prefix, after_prefix, path_is_in_subtree}

pub strip_prefix-append : (p s : List ℕ) → strip_prefix p (p ++ s) ≡ some s
unfolding strip_prefix
strip_prefix-append [] s = refl
strip_prefix-append (x ∷ p) s = ground (arith, strip_prefix-append p s)

pub append-strip_prefix : (p s t : List ℕ) → strip_prefix p s ≡ some t → s ≡ p ++ t
unfolding strip_prefix
append-strip_prefix [] s t h = ground arith
append-strip_prefix (x ∷ p) [] t h = cc
append-strip_prefix (x ∷ p) (c ∷ s) t h = ground (arith, append-strip_prefix p s t)

-- The rest of a path below a root: empty, or from a slash on.
abbrev pub is_suffix : List ℕ → Bool
is_suffix [] = true
is_suffix (c ∷ s) = c == slash

-- A path is in a subtree exactly when it is the root of the subtree and such a rest.
pub in_subtree-append : (r s : List ℕ) → is_suffix s ≡ true → path_is_in_subtree (r ++ s) r ≡ true
unfolding path_is_in_subtree
in_subtree-append r [] h = ground (arith, bytes_beq_iff (r ++ []) r, append-nil r)
in_subtree-append r (c ∷ s) h = rw (strip_prefix-append r (c ∷ s)) (ground arith)

pub suffix-in_subtree :
    (p r : List ℕ)
    → path_is_in_subtree p r ≡ true
    → (s : List ℕ) × (p ≡ r ++ s) × (is_suffix s ≡ true)
unfolding path_is_in_subtree
suffix-in_subtree p r h = elim (Bool-cases (p === r)) [
  | inl same ↦ ([], (bytes_beq_iff p r).0 same ∙ sym (append-nil r), refl)
  | inr other ↦ go (strip_prefix r p) refl (rw other at h)
]
  where
    go :
        (o : Option (List ℕ))
        → strip_prefix r p ≡ o
        → after_prefix o ≡ true
        → (s : List ℕ) × (p ≡ r ++ s) × (is_suffix s ≡ true)
    go none e a = absurd (cc)
    go (some []) e a = absurd (cc)
    go (some (c ∷ s)) e a = (c ∷ s, append-strip_prefix r p (c ∷ s) e, a)
