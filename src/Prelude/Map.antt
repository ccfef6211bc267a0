-- ===== src/Prelude/Map.antt =====
-- `HashMap` as an association list. `insert`, `remove` and `filter_map` leave one entry for a key.
use mathlib.Core.Path.{◌≡◌, refl}
use mathlib.Core.Bool.{false}
use mathlib.Core.List.{List, [], ◌∷◌}
use mathlib.Core.Option.{Option, none, some}
use mathlib.Core.Logic.{inl, inr}
use native.Mathlib.Omega.{arith}
use fabric_fs.Prelude.Tests.{if◌then◌else◌, Bool-cases}
use fabric_fs.Prelude.Eq.{Eq, ◌===◌, ===_refl, ===_eq}

abbrev pub Map {ℓ κ} : Type ℓ → Type κ → Type (ℓ ⊔ κ)
Map K V = List (K × V)

abbrev pub bind_value {κ} : {V : Type κ} → (V → Option V) → Option V → Option V
bind_value f none = none
bind_value f (some v) = f v

module _ {ℓ κ} {K : Type ℓ} {V : Type κ} ⦃e : Eq K⦄ where
  unfoldable pub get : Map K V → K → Option V
  get [] k = none
  get ((j, v) ∷ m) k = if j === k then some v else get m k

  unfoldable pub remove : Map K V → K → Map K V
  remove [] k = []
  remove ((j, v) ∷ m) k = let rest = remove m k in if j === k then rest else (j, v) ∷ rest

  unfoldable pub insert : Map K V → K → V → Map K V
  insert m k v = (k, v) ∷ remove m k

  abbrev pub cons_some : K → Option V → Map K V → Map K V
  cons_some k none m = m
  cons_some k (some v) m = (k, v) ∷ m

  -- Keeps or changes each entry.
  unfoldable pub filter_map : (K → V → Option V) → Map K V → Map K V
  filter_map f [] = []
  filter_map f ((k, v) ∷ m) = cons_some k (f k v) (remove (filter_map f m) k)

  pub get-remove :
      (m : Map K V) (k j : K) → get (remove m k) j ≡ (if k === j then none else get m j)
  unfolding get remove
  get-remove [] k j = ground arith
  get-remove ((i, v) ∷ m) k j =
      ground (arith, get-remove m k j, e.beq_iff i k, e.beq_iff i j, e.beq_iff k j)

  pub get-insert :
      (m : Map K V) (k j : K) (v : V) → get (insert m k v) j ≡ (if k === j then some v else get m j)
  unfolding get insert
  get-insert m k j v = ground (arith, get-remove m k j)

  pub get-cons_some :
      (k j : K) (o : Option V) (m : Map K V)
      → get (cons_some k o (remove m k)) j ≡ (if k === j then o else get m j)
  unfolding get
  get-cons_some k j none m = get-remove m k j
  get-cons_some k j (some v) m = ground (arith, get-remove m k j)

  pub get-filter_map :
      (f : K → V → Option V) (m : Map K V) (j : K)
      → get (filter_map f m) j ≡ bind_value (f j) (get m j)
  unfolding get filter_map
  get-filter_map f [] j = refl
  get-filter_map f ((k, v) ∷ m) j = elim (Bool-cases (k === j)) [
    | inl same ↦ rw (get-cons_some k j (f k v) (filter_map f m), same, ===_eq k j same)
    | inr other ↦ rw (get-cons_some k j (f k v) (filter_map f m), other) (get-filter_map f m j)
  ]

  pub get-insert_self : (m : Map K V) (k : K) (v : V) → get (insert m k v) k ≡ some v
  get-insert_self m k v = rw (get-insert, ===_refl)

  pub get-insert_ne :
      (m : Map K V) (k j : K) (v : V) → (k === j) ≡ false → get (insert m k v) j ≡ get m j
  get-insert_ne m k j v h = rw (get-insert, h)

pub ruleset map_laws = (get-remove, get-insert, get-filter_map)
