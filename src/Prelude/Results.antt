-- ===== src/Prelude/Results.antt =====
-- `Result<A, E>` of Rust, with `?` as `◌>>=◌`.
use mathlib.Core.Path.{◌≡◌, refl}
use mathlib.Core.Logic.{◌⊎◌, inl, inr}
use mathlib.Core.Bool.{Bool, true, false}

pub data Result {ℓ} (E A : Type ℓ) : Type ℓ where
  ok : A → Result E A
  err : E → Result E A

infixl 5 ◌>>=◌ ◌>>◌
abbrev pub ◌>>=◌ {ℓ} : {E A B : Type ℓ} → Result E A → (A → Result E B) → Result E B
ok a >>= f = f a
err e >>= f = err e

abbrev pub ◌>>◌ {ℓ} : {E A B : Type ℓ} → Result E A → Result E B → Result E B
m >> k = m >>= λ _. k

-- `if !test { return Err(e) }`
abbrev pub ensure {ℓ} : {E : Type ℓ} → Bool → E → Result E (Unit {ℓ})
ensure true e = ok tt
ensure false e = err e

abbrev pub is_ok {ℓ} : {E A : Type ℓ} → Result E A → Bool
is_ok (ok a) = true
is_ok (err e) = false

pub ok-injective : {E A : Type 0} → {a b : A} → ◌≡◌ {A = Result E A} (ok a) (ok b) → a ≡ b
ok-injective e = cc

pub bind-ok :
    {E A B : Type 0} (m : Result E A) (f : A → Result E B) (a : A) → m ≡ ok a → (m >>= f) ≡ f a
bind-ok m f a h = rw h

-- What a chain that succeeds says of its parts.
pub ok-bind :
    {E A B : Type 0} (m : Result E A) (f : A → Result E B) (b : B)
    → (m >>= f) ≡ ok b
    → (a : A) × (m ≡ ok a) × (f a ≡ ok b)
ok-bind (ok a) f b h = (a, refl, h)
ok-bind (err e) f b h = cc

pub ok-seq :
    {E A : Type 0} (m : Result E (Unit {0})) (k : Result E A) (b : A)
    → (m >> k) ≡ ok b
    → (m ≡ ok tt) × (k ≡ ok b)
ok-seq (ok a) k b h = (refl, h)
ok-seq (err e) k b h = cc

pub seq-ok :
    {E A : Type 0} (m : Result E (Unit {0})) (k : Result E A) (b : A)
    → m ≡ ok tt
    → k ≡ ok b
    → (m >> k) ≡ ok b
seq-ok m k b h g = rw (h, g)

pub ensure-ok : {E : Type 0} (b : Bool) (e : E) → ensure b e ≡ ok tt → b ≡ true
ensure-ok true e h = refl
ensure-ok false e h = cc

pub ok-ensure : {E : Type 0} (b : Bool) (e : E) → b ≡ true → ensure b e ≡ ok tt
ok-ensure b e h = rw h

-- The error that a result carries.
pub Result-cases :
    {E A : Type 0} (m : Result E A) → ((a : A) × (m ≡ ok a)) ⊎ ((e : E) × (m ≡ err e))
Result-cases (ok a) = inl (a, refl)
Result-cases (err e) = inr (e, refl)
