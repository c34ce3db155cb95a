-- ===== src/Base/Effects.antt =====
-- Errors as values, and operations that change a state and may raise. What was written before a
-- raise stays written, so the state comes back beside the error too.
use mathlib.Core.Path.{◌≡◌, refl, ap}
use mathlib.Core.Bool.{Bool, true, false}
use cozy_nm.Base.Tests.{if◌then◌else◌}
use mathlib.Core.Logic.{◌⊎◌, inl, inr}

pub data Result {ℓ} (E A : Type ℓ) : Type ℓ where
  ok : A → Result E A
  err : E → Result E A

abbrev pub is_ok {ℓ} : {E A : Type ℓ} → Result E A → Bool
is_ok (ok a) = true
is_ok (err e) = false

pub either-is_ok {ℓ} :
    {E A : Type ℓ} (b : Bool) (x y : Result E A)
    → is_ok x ≡ true
    → is_ok y ≡ true
    → is_ok (if b then x else y) ≡ true
either-is_ok true x y h k = h
either-is_ok false x y h k = k

abbrev pub Exec : Type 0 → Type 0 → Type 0 → Type 0
Exec S E A = S → Result E A × S

module _ {S E A : Type 0} where
  abbrev pub pure : A → Exec S E A
  pure a s = (ok a, s)

  abbrev pub raise : E → Exec S E A
  raise e s = (err e, s)

  -- a computation that does not touch the state
  abbrev pub lift : Result E A → Exec S E A
  lift r s = (r, s)

  -- a computation that only reads the state
  abbrev pub reads : (S → Result E A) → Exec S E A
  reads f s = (f s, s)

module _ {S E A B : Type 0} where
  abbrev pub continue : Result E A → (A → Exec S E B) → Exec S E B
  continue (ok a) f s = f a s
  continue (err e) f s = (err e, s)

  infixl 5 ◌>>=◌ ◌>>◌
  abbrev pub ◌>>=◌ : Exec S E A → (A → Exec S E B) → Exec S E B
  ◌>>=◌ m f s = let (r, t) = m s in continue r f t

  abbrev pub ◌>>◌ : Exec S E A → Exec S E B → Exec S E B
  m >> n = m >>= λ _. n

-- the sequencing of computations that only raise
abbrev pub bind_result {ℓ} : {E A B : Type ℓ} → Result E A → (A → Result E B) → Result E B
bind_result (ok a) f = f a
bind_result (err e) f = err e

pub Result-cases {ℓ} :
    {E A : Type ℓ} (r : Result E A) → ((a : A) × (r ≡ ok a)) ⊎ ((e : E) × (r ≡ err e))
Result-cases (ok a) = inl (a, refl)
Result-cases (err e) = inr (e, refl)

module _ {S E A B : Type 0} (m : Exec S E A) (n : Exec S E B) (s : S) where
  pub seq-ok : (a : A) → (m s).0 ≡ ok a → (m >> n) s ≡ n (m s).1
  seq-ok a h = ap (λ r. continue r (λ _. n) (m s).1) h

  pub seq-err : (e : E) → (m s).0 ≡ err e → (m >> n) s ≡ (err e, (m s).1)
  seq-err e h = ap (λ r. continue r (λ _. n) (m s).1) h
