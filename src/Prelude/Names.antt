-- ===== src/Prelude/Names.antt =====
-- Sets of names: `HashSet<String>` as a list without repetitions.
use Prim.Native.String.{String}
use mathlib.Core.Path.{◌≡◌, refl}
use mathlib.Core.Bool.{Bool, true, false, ◌&&◌, ◌||◌, not}
use mathlib.Core.List.{List, [], ◌∷◌, ◌++◌}
use native.Mathlib.Omega.{arith}
use Prim.Native.Nat.{◌≤◌}
use fabric_fs.Prelude.Lists.{length}
use fabric_fs.Prelude.Tests.{if◌then◌else◌}
use fabric_fs.Prelude.Eq.{◌===◌, string_eq}

unfoldable pub contains : List String → String → Bool
contains [] s = false
contains (x ∷ xs) s = x === s || contains xs s

unfoldable pub without : List String → String → List String
without [] s = []
without (x ∷ xs) s = let rest = without xs s in if x === s then rest else x ∷ rest

unfoldable pub add : List String → String → List String
add xs s = s ∷ without xs s

pub contains-without :
    (xs : List String) (s t : String) → contains (without xs s) t ≡ (not (s === t) && contains xs t)
unfolding contains without
contains-without [] s t = ground arith
contains-without (x ∷ xs) s t = ground (
  arith,
  contains-without xs s t,
  string_eq.beq_iff x s,
  string_eq.beq_iff x t,
  string_eq.beq_iff s t,
)

pub contains-add :
    (xs : List String) (s t : String) → contains (add xs s) t ≡ (s === t || contains xs t)
unfolding contains add
contains-add xs s t = ground (arith, contains-without xs s t)

pub contains-append :
    (xs ys : List String) (t : String) → contains (xs ++ ys) t ≡ (contains xs t || contains ys t)
unfolding contains
contains-append [] ys t = refl
contains-append (x ∷ xs) ys t = ground (arith, contains-append xs ys t)

-- No name stands twice.
abbrev pub IsDistinct : List String → Type 0
IsDistinct [] = Unit
IsDistinct (x ∷ xs) = (contains xs x ≡ false) × IsDistinct xs

pub without-IsDistinct : (xs : List String) (s : String) → IsDistinct xs → IsDistinct (without xs s)
unfolding without
without-IsDistinct [] s d = tt
without-IsDistinct (x ∷ xs) s (out, d) = step (x === s) (without-IsDistinct xs s d)
  where
    step :
        (b : Bool)
        → IsDistinct (without xs s)
        → IsDistinct (if b then without xs s else x ∷ without xs s)
    step true rest = rest
    step false rest = (ground (arith, contains-without xs s x), rest)

pub append-IsDistinct :
    (xs : List String) (s : String)
    → IsDistinct xs
    → contains xs s ≡ false
    → IsDistinct (xs ++ s ∷ [])
unfolding contains
append-IsDistinct [] s d out = (refl, tt)
append-IsDistinct (x ∷ xs) s (f, d) out = (
  ground (arith, contains-append xs (s ∷ []) x, string_eq.beq_iff x s, string_eq.beq_iff s x),
  append-IsDistinct xs s d (ground arith),
)

pub length-without : (xs : List String) (s : String) → length (without xs s) ≤ length xs
unfolding without
length-without [] s = omega arith
length-without (x ∷ xs) s = ground (arith, length-without xs s)
