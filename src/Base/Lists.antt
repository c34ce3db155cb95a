-- ===== src/Base/Lists.antt =====
-- Lists measured by native numbers, predicates on all members, Boolean filters.
use Prim.Native.Nat.{ℕ, zero, suc, ◌+◌, ◌-◌, ◌≤◌}
use mathlib.Core.Path.{◌≡◌, refl}
use mathlib.Core.Bool.{Bool, true, false, ◌&&◌, ◌||◌}
use mathlib.Core.Option.{Option, none, some}
use mathlib.Core.List.{List, [], ◌∷◌, ◌++◌}
use native.Mathlib.Omega.{arith}
use cozy_nm.Base.Tests.{if◌then◌else◌}

module _ {ℓ} {A : Type ℓ} where
  abbrev pub length : List A → ℕ
  length [] = 0
  length (x ∷ xs) = suc (length xs)

  abbrev pub drop : ℕ → List A → List A
  drop zero xs = xs
  drop (suc n) [] = []
  drop (suc n) (x ∷ xs) = drop n xs

  abbrev pub any : (A → Bool) → List A → Bool
  any p [] = false
  any p (x ∷ xs) = p x || any p xs

  abbrev pub all : (A → Bool) → List A → Bool
  all p [] = true
  all p (x ∷ xs) = p x && all p xs

  -- the comprehension [x for x in xs if p(x)]
  abbrev pub select : (A → Bool) → List A → List A
  select p [] = []
  select p (x ∷ xs) = let rest = select p xs in if p x then x ∷ rest else rest

  -- a member if there is one
  abbrev pub add_some : Option A → List A → List A
  add_some none xs = xs
  add_some (some x) xs = x ∷ xs

  -- sorted(xs), stable, for the order `before` of the keys
  abbrev pub insert_by : (before : A → A → Bool) → A → List A → List A
  insert_by before x [] = x ∷ []
  insert_by before x (y ∷ ys) =
      let rest = insert_by before x ys in if before y x then y ∷ rest else x ∷ y ∷ ys

  abbrev pub sort_by : (before : A → A → Bool) → List A → List A
  sort_by before [] = []
  sort_by before (x ∷ xs) = insert_by before x (sort_by before xs)

  -- a set in the order of its members' keys, which differ
  abbrev pub place : (before : A → A → Bool) → A → List A → List A
  place before x [] = x ∷ []
  place before x (y ∷ ys) =
      let rest = place before x ys in
      if before y x then y ∷ rest else if before x y then x ∷ y ∷ ys else y ∷ ys

  abbrev pub set_by : (before : A → A → Bool) → List A → List A
  set_by before [] = []
  set_by before (x ∷ xs) = place before x (set_by before xs)

  pub length-append : (xs ys : List A) → length (xs ++ ys) ≡ length xs + length ys
  length-append [] ys = omega arith
  length-append (x ∷ xs) ys = omega (arith, length-append xs ys)

  pub length-drop : (n : ℕ) (xs : List A) → length (drop n xs) ≡ length xs - n
  length-drop zero xs = omega arith
  length-drop (suc n) [] = omega arith
  length-drop (suc n) (x ∷ xs) = omega (arith, length-drop n xs)

  pub length-select-le : (p : A → Bool) (xs : List A) → length (select p xs) ≤ length xs
  length-select-le p [] = omega arith
  length-select-le p (x ∷ xs) = ground (arith, length-select-le p xs)

  -- xs[-k:] for k > 0
  abbrev pub take_last : ℕ → List A → List A
  take_last k xs = drop (length xs - k) xs

module _ {ℓ κ} {A : Type ℓ} (P : A → Type κ) where
  abbrev pub All : List A → Type κ
  All [] = Unit
  All (x ∷ xs) = P x × All xs

  pub All-append : (xs ys : List A) → All xs → All ys → All (xs ++ ys)
  All-append [] ys h k = k
  All-append (x ∷ xs) ys (p, h) k = (p, All-append xs ys h k)

  pub All-add_some :
      (o : Option A) (xs : List A) → ((a : A) → o ≡ some a → P a) → All xs → All (add_some o xs)
  All-add_some none xs p h = h
  All-add_some (some x) xs p h = (p x refl, h)

  pub All-place :
      (before : A → A → Bool) (x : A) (xs : List A) → P x → All xs → All (place before x xs)
  All-place before x [] p h = (p, tt)
  All-place before x (y ∷ ys) p (q, h) = ground (arith, All-place before x ys p h)

  pub All-set_by : (before : A → A → Bool) (xs : List A) → All xs → All (set_by before xs)
  All-set_by before [] h = tt
  All-set_by before (x ∷ xs) (p, h) =
      All-place before x (set_by before xs) p (All-set_by before xs h)

  pub All-insert_by :
      (before : A → A → Bool) (x : A) (xs : List A) → P x → All xs → All (insert_by before x xs)
  All-insert_by before x [] p h = (p, tt)
  All-insert_by before x (y ∷ ys) p (q, h) = ground (arith, All-insert_by before x ys p h)

  pub All-sort_by : (before : A → A → Bool) (xs : List A) → All xs → All (sort_by before xs)
  All-sort_by before [] h = tt
  All-sort_by before (x ∷ xs) (p, h) =
      All-insert_by before x (sort_by before xs) p (All-sort_by before xs h)

  pub All-drop : (n : ℕ) (xs : List A) → All xs → All (drop n xs)
  All-drop zero xs h = h
  All-drop (suc n) [] h = h
  All-drop (suc n) (x ∷ xs) (p, h) = All-drop n xs h

  pub All-select : (q : A → Bool) (xs : List A) → All xs → All (select q xs)
  All-select q [] h = h
  All-select q (x ∷ xs) (p, h) = ground (arith, All-select q xs h)

module _ {ℓ} {A : Type ℓ} (p : A → Bool) where
  pub all-eq-true : (xs : List A) → All (λ x. p x ≡ true) xs → all p xs ≡ true
  all-eq-true [] h = refl
  all-eq-true (x ∷ xs) (e, h) = rw e (all-eq-true xs h)

  pub All-of_all : (xs : List A) → all p xs ≡ true → All (λ x. p x ≡ true) xs
  All-of_all [] h = tt
  All-of_all (x ∷ xs) h = ground (arith, All-of_all xs)
