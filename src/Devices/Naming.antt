-- ===== src/Devices/Naming.antt =====
-- The names of the nodes that are added for devices: the search for a free name ends with one.
use cozy_nm.Base.{
  ℕ, zero, suc, ◌≤◌, ◌<◌, ◌≡◌, refl, sym, ap, ◌∙◌, String, ◌==◌, eq_iff, true, false, arith,
  if◌then◌else◌, List, [], ◌∷◌, length, Bool-cases, inl, inr, or_else,
}
use text.Mathlib.TextLemmas.{append_cancel_left}
use cozy_nm.Base.Dicts.{contains}
use cozy_nm.Bridges.Decimal.{decimal, read_int, read_int-decimal}
use cozy_nm.Devices.Inventory.{numbered, search}

decimal-injective : (m n : ℕ) → decimal m ≡ decimal n → m ≡ n
decimal-injective m n h =
    ap (λ o. or_else o 0) (sym (read_int-decimal m) ∙ ap read_int h ∙ read_int-decimal n)

numbered-injective : (base : String) (m n : ℕ) → numbered base m ≡ numbered base n → m ≡ n
unfolding numbered
numbered-injective base m n h =
    decimal-injective m n
      (append_cancel_left "-" (decimal m) (decimal n) (append_cancel_left base _ _ h))

numbered-distinct : (base : String) (m n : ℕ) → m < n → (numbered base m == numbered base n) ≡ false
numbered-distinct base m n h = elim (Bool-cases (numbered base m == numbered base n)) [
  | inr e ↦ e
  | inl e ↦
      let q = numbered-injective base m n ((eq_iff (numbered base m) (numbered base n)).0 e) in
      absurd (omega (arith, q, h))
]

-- the names other than `c`
without : String → List String → List String
without c [] = []
without c (x ∷ xs) = let rest = without c xs in if x == c then rest else x ∷ rest

length-without-le : (c : String) (xs : List String) → length (without c xs) ≤ length xs
unfolding without
length-without-le c [] = omega arith
length-without-le c (x ∷ xs) = ground (arith, length-without-le c xs)

length-without :
    (c : String) (xs : List String) → contains c xs ≡ true → length (without c xs) < length xs
unfolding without contains
length-without c [] h = absurd (cc)
length-without c (x ∷ xs) h = ground (arith, length-without c xs, length-without-le c xs)

contains-without :
    (c x : String) (xs : List String) → (c == x) ≡ false → contains x (without c xs) ≡ contains x xs
unfolding without contains
contains-without c x [] h = refl
contains-without c x (y ∷ ys) h =
    ground (arith, contains-without c x ys h, eq_iff y c, eq_iff y x, eq_iff c x)

-- the result is a later candidate, so a name before it does not matter
search-without :
    (fuel : ℕ) (base : String) (m n : ℕ) (names : List String)
    → m < n
    → search fuel base n (without (numbered base m) names) ≡ search fuel base n names
unfolding search
search-without zero base m n names h = refl
search-without (suc fuel) base m n names h = rw (
  contains-without (numbered base m) (numbered base n) names (numbered-distinct base m n h),
  search-without fuel base m (suc n) names (omega (arith, h)),
)

search-later :
    (fuel : ℕ) (base : String) (m n : ℕ) (names : List String)
    → m < n
    → (numbered base m == search fuel base n names) ≡ false
unfolding search
search-later zero base m n names h = numbered-distinct base m n h
search-later (suc fuel) base m n names h =
    ground (
      arith,
      numbered-distinct base m n h,
      search-later fuel base m (suc n) names (omega (arith, h)),
    )

-- With at least as many rounds as there are names, the name found is not among them.
pub contains-search :
    (fuel : ℕ) (base : String) (suffix : ℕ) (names : List String)
    → length names ≤ fuel
    → contains (search fuel base suffix names) names ≡ false
unfolding search contains
contains-search zero base suffix [] h = refl
contains-search zero base suffix (x ∷ xs) h = absurd (omega arith)
contains-search (suc fuel) base suffix names h =
    elim (Bool-cases (contains (numbered base suffix) names)) [
      | inr e ↦ rw (e, search) e
      | inl e ↦
          let c = numbered base suffix in
          let ih =
            contains-search fuel base (suc suffix) (without c names)
              (omega (arith, h, length-without c names e)) in
          let s = search-without fuel base suffix (suc suffix) names (omega arith) in
          let d = search-later fuel base suffix (suc suffix) names (omega arith) in
          rw (e, search)
            (sym (contains-without c (search fuel base (suc suffix) names) names d)
              ∙ ap (λ x. contains x (without c names)) (sym s)
              ∙ ih)
    ]
