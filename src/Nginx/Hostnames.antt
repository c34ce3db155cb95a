-- ===== src/Nginx/Hostnames.antt =====
-- The names that `_nginx_hostname` accepts are their own normal form.
use Prim.Native.String.{[], ◌∷◌}
use cozy_nm.Base.{
  ℕ, zero, suc, ◌-◌, ◌≡◌, refl, ap, subst, ◌∙◌, String, Char, code, Bool, true, false, not, ◌&&◌,
  none, some, arith, if◌then◌else◌, nat_eq, leb, is_empty, all_chars, Bool-cases, inl, inr,
}
use cozy_nm.Config.Checks.{rstrip_dots}
use cozy_nm.Nginx.Sites.{nth, letters, lower_char, lower, is_hostname, nginx_hostname}

abbrev is_upper : ℕ → Bool
is_upper c = leb b'A' c && leb c b'Z'

-- neither a capital, nor the sign for Kelvin, nor a dot
abbrev is_settled : ℕ → Bool
is_settled c = not (is_upper c) && not (nat_eq c 8490) && not (nat_eq c b'.')

nth-settled :
    (s : String) (n : ℕ) → all_chars is_settled s ≡ true → is_settled (code (nth s n)) ≡ true
nth-settled [] n h = refl
nth-settled (c ∷ s) zero h = ground arith
nth-settled (c ∷ s) (suc n) h = ground (arith, nth-settled s n)

lower_char-settled :
    (c : Char) → nat_eq (code c) b'.' ≡ false → is_settled (code (lower_char c)) ≡ true
unfolding lower_char
lower_char-settled c h = elim (Bool-cases (is_upper (code c))) [
  | inl e ↦ rw e (nth-settled letters (code c - b'A') refl)
  | inr e ↦ elim (Bool-cases (nat_eq (code c) 8490)) [
    | inl k ↦ rw (e, k) refl
    | inr k ↦ rw (e, k) (rw (e, k, h))
  ]
]

lower_char-dot : (c : Char) → nat_eq (code c) b'.' ≡ true → lower_char c ≡ c
unfolding lower_char
lower_char-dot c h =
    let u : is_upper (code c) ≡ false = ground arith in
    let k : nat_eq (code c) 8490 ≡ false = ground arith in rw (u, k)

settled-lower_char : (c : Char) → is_settled (code c) ≡ true → lower_char c ≡ c
unfolding lower_char
settled-lower_char c h =
    let u : is_upper (code c) ≡ false = ground arith in
    let k : nat_eq (code c) 8490 ≡ false = ground arith in rw (u, k)

lower_char_idem : (c : Char) → lower_char (lower_char c) ≡ lower_char c
lower_char_idem c = elim (Bool-cases (nat_eq (code c) b'.')) [
  | inl e ↦ ap lower_char (lower_char-dot c e)
  | inr e ↦ settled-lower_char (lower_char c) (lower_char-settled c e)
]

lower_char-is_dot : (c : Char) → nat_eq (code (lower_char c)) b'.' ≡ nat_eq (code c) b'.'
lower_char-is_dot c = elim (Bool-cases (nat_eq (code c) b'.')) [
  | inl e ↦ ap (λ d. nat_eq (code d) b'.') (lower_char-dot c e)
  | inr e ↦ ground (arith, lower_char-settled c e)
]

lower_idem : (s : String) → lower (lower s) ≡ lower s
unfolding lower
lower_idem [] = refl
lower_idem (c ∷ s) = rw (lower_char_idem c, lower_idem s)

is_empty-lower : (s : String) → is_empty (lower s) ≡ is_empty s
unfolding lower
is_empty-lower [] = refl
is_empty-lower (c ∷ s) = refl

rstrip_dots-lower : (s : String) → rstrip_dots (lower s) ≡ lower (rstrip_dots s)
unfolding rstrip_dots lower
rstrip_dots-lower [] = refl
rstrip_dots-lower (c ∷ s) =
    let b = lower_char-is_dot c in
    let ih = rstrip_dots-lower s in
    elim (Bool-cases (nat_eq (code c) b'.' && is_empty (rstrip_dots s))) [
      | inl e ↦ rw (b, ih, is_empty-lower (rstrip_dots s), e)
      | inr e ↦ rw (b, ih, is_empty-lower (rstrip_dots s), e)
    ]

rstrip_dots_idem : (s : String) → rstrip_dots (rstrip_dots s) ≡ rstrip_dots s
unfolding rstrip_dots
rstrip_dots_idem [] = refl
rstrip_dots_idem (c ∷ s) =
    let ih = rstrip_dots_idem s in
    elim (Bool-cases (nat_eq (code c) b'.' && is_empty (rstrip_dots s))) [
      | inl e ↦ rw e
      | inr e ↦ rw (e, ih, e)
    ]

-- A name that is accepted is a host name, and is accepted as it is when it is looked at again.
pub nginx_hostname-stays :
    (is_ip : String → Bool) (value h : String)
    → nginx_hostname is_ip value ≡ some h
    → (is_hostname is_ip h ≡ true) × (nginx_hostname is_ip h ≡ some h)
unfolding nginx_hostname
nginx_hostname-stays is_ip value h e =
    let v = lower (rstrip_dots value) in
    let again : lower (rstrip_dots v) ≡ v =
      ap lower (rstrip_dots-lower (rstrip_dots value) ∙ ap lower (rstrip_dots_idem value))
      ∙ lower_idem (rstrip_dots value) in
    elim (Bool-cases (is_hostname is_ip v)) [
      | inr n ↦ let bad : none ≡ some h = rw n at e in absurd (cc (bad))
      | inl y ↦
          let same : some v ≡ some h = rw y at e in
          let q : v ≡ h = cc (same) in
          subst
            (λ x.
              (is_hostname is_ip x ≡ true)
              × ((if is_hostname is_ip (lower (rstrip_dots x))
                    then some (lower (rstrip_dots x))
                    else none)
                  ≡ some x))
            q (y, rw (again, y))
    ]
