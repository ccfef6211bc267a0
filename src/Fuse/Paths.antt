-- ===== src/Fuse/Paths.antt =====
-- The path helpers of fs-fuse/src/cache.rs.
use fabric_fs.Prelude.{
  ℕ, ◌≡◌, ◌≢◌, refl, ap, ◌∙◌, sym, Bool, true, false, ◌||◌, not, Option, none, some, List, [], ◌∷◌,
  ◌++◌, ◌==◌, ◌===◌, if◌then◌else◌, bytes_eq, any, any-append, is_empty, arith, ok, Bool-cases, inl,
  inr,
}
use fabric_fs.Prelude.Eq.{bytes_beq_iff}
use fabric_fs.Protocol.Path.{
  slash, root, strip_prefix, split, cons_head, skip_one, bad_component, contains_nul,
  validate_path_value, path_is_in_subtree as in_subtree,
}

unfoldable pub path_is_in_subtree : List ℕ → List ℕ → Bool
path_is_in_subtree path root_path = if is_empty root_path then false else in_subtree path root_path

abbrev pub or_empty : Option (List ℕ) → List ℕ
or_empty none = []
or_empty (some s) = s

unfoldable pub subtree_suffix : List ℕ → List ℕ → List ℕ
subtree_suffix path root_path = or_empty (strip_prefix root_path path)

-- str::rsplit_once on the slash
abbrev pub rsplit_step : ℕ → List ℕ → Option (List ℕ × List ℕ) → Option (List ℕ × List ℕ)
rsplit_step c s (some (before, after)) = some (c ∷ before, after)
rsplit_step c s none = if c == slash then some ([], s) else none

unfoldable pub rsplit_once : List ℕ → Option (List ℕ × List ℕ)
rsplit_once [] = none
rsplit_once (c ∷ s) = rsplit_step c s (rsplit_once s)

abbrev pub parent_of : Option (List ℕ × List ℕ) → List ℕ
parent_of none = root
parent_of (some ([], _)) = root
parent_of (some (c ∷ parent, _)) = c ∷ parent

unfoldable pub parent_path : List ℕ → List ℕ
parent_path path = parent_of (rsplit_once path)

abbrev pub has_slash : List ℕ → Bool
has_slash = any (λ c. c == slash)

-- `true` for a name that `validate_child_name` accepts.
unfoldable pub valid_child_name : List ℕ → Bool
valid_child_name name = not (is_empty name || has_slash name || contains_nul name)

unfoldable pub join_child_path : List ℕ → List ℕ → List ℕ
join_child_path parent name = if parent === root then slash ∷ name else parent ++ slash ∷ name

rsplit-no_slash : (name : List ℕ) → has_slash name ≡ false → rsplit_once name ≡ none
unfolding rsplit_once any
rsplit-no_slash [] h = refl
rsplit-no_slash (c ∷ s) h = ground (arith, rsplit-no_slash s)

rsplit-append :
    (p name : List ℕ) → has_slash name ≡ false → rsplit_once (p ++ slash ∷ name) ≡ some (p, name)
unfolding rsplit_once
rsplit-append [] name h = rw (rsplit-no_slash name h) refl
rsplit-append (c ∷ p) name h = rw (rsplit-append p name h) refl

-- The parent of the path that joins a valid child name to a nonempty path is that path.
pub parent-join :
    (parent name : List ℕ)
    → parent ≢ []
    → valid_child_name name ≡ true
    → parent_path (join_child_path parent name) ≡ parent
unfolding parent_path join_child_path valid_child_name
parent-join [] name ne h = absurd (ne refl)
parent-join (c ∷ p) name ne h = elim (Bool-cases ((c ∷ p) === root)) [
  | inl at_root ↦
      rw (at_root, rsplit-append [] name (ground arith))
        (sym ((bytes_beq_iff (c ∷ p) root).0 at_root))
  | inr below ↦ rw (below, rsplit-append (c ∷ p) name (ground arith)) refl
]

split-cons :
    (s : List ℕ) → (piece : List ℕ) × (pieces : List (List ℕ)) × (split slash s ≡ piece ∷ pieces)
unfolding split
split-cons [] = ([], [], refl)
split-cons (c ∷ s) = elim (Bool-cases (c == slash)) [
  | inl here ↦ ([], split slash s, rw here)
  | inr other ↦ let (piece, pieces, e) = split-cons s in (c ∷ piece, pieces, rw (other, e))
]

cons_head-append :
    (c : ℕ) (s : List ℕ) (ys : List (List ℕ))
    → cons_head c (split slash s ++ ys) ≡ cons_head c (split slash s) ++ ys
cons_head-append c s ys = let (piece, pieces, e) = split-cons s in rw e

split-append : (s t : List ℕ) → split slash (s ++ slash ∷ t) ≡ split slash s ++ split slash t
unfolding split
split-append [] t = refl
split-append (c ∷ s) t = elim (Bool-cases (c == slash)) [
  | inl here ↦ rw (here, split-append s t)
  | inr other ↦ rw (other, split-append s t, cons_head-append c s (split slash t))
]

split-no_slash : (name : List ℕ) → has_slash name ≡ false → split slash name ≡ name ∷ []
unfolding split any
split-no_slash [] h = refl
split-no_slash (c ∷ s) h = ground (arith, split-no_slash s)

skip_one-append :
    (s : List ℕ) (ys : List (List ℕ))
    → skip_one (split slash s ++ ys) ≡ skip_one (split slash s) ++ ys
skip_one-append s ys = let (piece, pieces, e) = split-cons s in rw e

components-join :
    (parent name : List ℕ)
    → has_slash name ≡ false
    → any bad_component (skip_one (split slash (parent ++ slash ∷ name)))
      ≡ (any bad_component (skip_one (split slash parent)) || bad_component name)
unfolding any
components-join parent name h =
    rw (split-append, split-no_slash name h, skip_one-append)
      (any-append bad_component (skip_one (split slash parent)) (name ∷ []) ∙ ground arith)

contains_nul-append : (s t : List ℕ) → contains_nul (s ++ t) ≡ (contains_nul s || contains_nul t)
unfolding contains_nul
contains_nul-append s t = any-append (λ c. c == 0) s t

valid_path :
    (s : List ℕ)
    → contains_nul (slash ∷ s) ≡ false
    → any bad_component (skip_one (split slash (slash ∷ s))) ≡ false
    → validate_path_value (slash ∷ s) ≡ ok tt
unfolding validate_path_value
valid_path s nul good = ground arith

valid_parts :
    (c : ℕ) (s : List ℕ)
    → validate_path_value (c ∷ s) ≡ ok tt
    → ((c ∷ s) === root) ≡ false
    → (c ≡ slash)
      × (contains_nul (c ∷ s) ≡ false)
      × (any bad_component (skip_one (split slash (c ∷ s))) ≡ false)
unfolding validate_path_value
valid_parts c s v r = ground arith

validate-nil : validate_path_value [] ≢ ok tt
unfolding validate_path_value
validate-nil h = cc

child_name_parts :
    (name : List ℕ)
    → valid_child_name name ≡ true
    → (has_slash name ≡ false) × (contains_nul name ≡ false)
unfolding valid_child_name
child_name_parts name h = ground arith

nul-slash : (s : List ℕ) → contains_nul (slash ∷ s) ≡ contains_nul s
unfolding contains_nul any
nul-slash s = refl

or_false : {a b : Bool} → a ≡ false → b ≡ false → (a || b) ≡ false
or_false h k = ground arith

-- A valid child name joined to a valid path gives a valid path, unless the name is `.` or `..`.
pub join-valid :
    (parent name : List ℕ)
    → validate_path_value parent ≡ ok tt
    → valid_child_name name ≡ true
    → bad_component name ≡ false
    → validate_path_value (join_child_path parent name) ≡ ok tt
unfolding join_child_path
join-valid [] name p n b = absurd (validate-nil p)
join-valid (c ∷ parent) name p n b = elim (Bool-cases ((c ∷ parent) === root)) [
  | inl at_root ↦ rw at_root (
      valid_path name (nul-slash name ∙ nul)
        (components-join [] name no_slash ∙ rw b (unfold split any in refl)))
  | inr below ↦
      let (is_slash, parent_nul, good) = valid_parts c parent p below in
      rw (below, is_slash)
        (valid_path (parent ++ slash ∷ name)
          (contains_nul-append (slash ∷ parent) (slash ∷ name)
            ∙ ground (
              arith,
              nul-slash name,
              nul,
              ap (λ (x : ℕ). contains_nul (x ∷ parent)) is_slash,
              parent_nul,
            ))
          (components-join (slash ∷ parent) name no_slash ∙ or_false (rw is_slash at good) b))
]
  where
    no_slash : has_slash name ≡ false
    no_slash = (child_name_parts name n).0

    nul : contains_nul name ≡ false
    nul = (child_name_parts name n).1
