-- ===== src/Bridges/Decimal.antt =====
-- `str(n)` of a natural number and `int(s)` of a text, for texts of ASCII characters: white space
-- around it, a sign, digits with single underscores between them. `int` is asked only whether the
-- value is at least 1, so a negative number counts as no number here.
use Prim.Native.String.{[], ◌∷◌}
use cozy_nm.Base.{
  ℕ, zero, suc, ◌+◌, ◌-◌, ◌*◌, ◌/◌, ◌%◌, ◌<◌, ◌≡◌, refl, String, Char, code, Bool, true, false, not,
  ◌&&◌, ◌||◌, Option, none, some, arith, if◌then◌else◌, nat_eq, leb, ltb, is_empty, drop_while,
  all_chars, Bool-cases, ltb→lt, inl, inr,
}

abbrev pub is_space : ℕ → Bool
is_space c = leb 9 c && leb c 13 || leb 28 c && leb c 32

abbrev pub is_digit : ℕ → Bool
is_digit c = leb b'0' c && leb c b'9'

-- the digit characters
abbrev pub digit_char : ℕ → Char
digit_char zero = "0"
digit_char (suc zero) = "1"
digit_char (suc (suc zero)) = "2"
digit_char (suc (suc (suc zero))) = "3"
digit_char (suc (suc (suc (suc zero)))) = "4"
digit_char (suc (suc (suc (suc (suc zero))))) = "5"
digit_char (suc (suc (suc (suc (suc (suc zero)))))) = "6"
digit_char (suc (suc (suc (suc (suc (suc (suc zero))))))) = "7"
digit_char (suc (suc (suc (suc (suc (suc (suc (suc zero)))))))) = "8"
digit_char _ = "9"

code-digit_char : (d : ℕ) → d < 10 → code (digit_char d) ≡ 48 + d
code-digit_char zero h = refl
code-digit_char (suc zero) h = refl
code-digit_char (suc (suc zero)) h = refl
code-digit_char (suc (suc (suc zero))) h = refl
code-digit_char (suc (suc (suc (suc zero)))) h = refl
code-digit_char (suc (suc (suc (suc (suc zero))))) h = refl
code-digit_char (suc (suc (suc (suc (suc (suc zero)))))) h = refl
code-digit_char (suc (suc (suc (suc (suc (suc (suc zero))))))) h = refl
code-digit_char (suc (suc (suc (suc (suc (suc (suc (suc zero)))))))) h = refl
code-digit_char (suc (suc (suc (suc (suc (suc (suc (suc (suc zero))))))))) h = refl
code-digit_char (suc (suc (suc (suc (suc (suc (suc (suc (suc (suc d)))))))))) h =
    absurd (omega arith)

-- the digits of `n` in front of `rest`
print_from : ℕ → ℕ → String → String
print_from zero n rest = rest
print_from (suc fuel) n rest =
    let more = print_from fuel (n / 10) (digit_char (n % 10) ∷ rest) in
    if ltb n 10 then digit_char n ∷ rest else more

-- `str(n)`: `n + 1` rounds are enough
unfoldable pub decimal : ℕ → String
unfolding print_from
decimal n = print_from (suc n) n []

-- `need` says that a digit must follow
read_digits : Bool → ℕ → String → Option ℕ
read_digits need acc [] = if need then none else some acc
read_digits need acc (c ∷ s) =
    let d = is_digit (code c) in
    let rest = read_digits (not d) (if d then acc * 10 + (code c - 48) else acc) s in
    if d || nat_eq (code c) b'_' && not need then rest else none

unfoldable pub rstrip_space : String → String
rstrip_space [] = []
rstrip_space (c ∷ s) =
    let rest = rstrip_space s in if is_space (code c) && is_empty rest then [] else c ∷ rest

read_signed : String → Option ℕ
unfolding read_digits
read_signed [] = none
read_signed (c ∷ s) =
    if nat_eq (code c) b'+'
    then read_digits true 0 s
    else if nat_eq (code c) b'-'
    then none
    else read_digits true 0 (c ∷ s)

-- `int(s)`
unfoldable pub read_int : String → Option ℕ
unfolding read_signed rstrip_space
read_int s = read_signed (rstrip_space (drop_while is_space s))

-- One digit is read as such.
read_digits-digit_char :
    (need : Bool) (acc d : ℕ) (s : String)
    → d < 10
    → read_digits need acc (digit_char d ∷ s) ≡ read_digits false (acc * 10 + d) s
unfolding read_digits
read_digits-digit_char need acc d s h =
    let e : is_digit (code (digit_char d)) ≡ true = ground (arith, code-digit_char d h) in
    let n : acc * 10 + (48 + d - 48) ≡ acc * 10 + d = omega arith in rw (e, code-digit_char d h, n)

read_digits-print_from :
    (fuel n : ℕ) (need : Bool) (s : String)
    → n < fuel
    → read_digits need 0 (print_from fuel n s) ≡ read_digits false n s
unfolding print_from
read_digits-print_from zero n need s h = absurd (omega arith)
read_digits-print_from (suc fuel) n need s h = elim (Bool-cases (ltb n 10)) [
  | inl e ↦
      let z : 0 * 10 + n ≡ n = omega arith in
      rw (e, read_digits-digit_char need 0 n s (ltb→lt n 10 e), z)
  | inr e ↦
      let q : n / 10 < fuel = ground arith in
      let d : n % 10 < 10 = omega arith in
      let j : n / 10 * 10 + n % 10 ≡ n = omega arith in
      rw (
        e,
        read_digits-print_from fuel (n / 10) need (digit_char (n % 10) ∷ s) q,
        read_digits-digit_char false (n / 10) (n % 10) s d,
        j,
      )
]

-- all characters are digits
all_digits-print_from :
    (fuel n : ℕ) (s : String)
    → all_chars is_digit s ≡ true
    → all_chars is_digit (print_from fuel n s) ≡ true
unfolding print_from
all_digits-print_from zero n s h = h
all_digits-print_from (suc fuel) n s h =
    let d : n % 10 < 10 = omega arith in
    elim (Bool-cases (ltb n 10)) [
      | inl e ↦ rw e (ground (arith, code-digit_char n (ltb→lt n 10 e)))
      | inr e ↦ rw e (
          all_digits-print_from fuel (n / 10) (digit_char (n % 10) ∷ s)
            (ground (arith, code-digit_char (n % 10) d)))
    ]

rstrip_space-digits : (s : String) → all_chars is_digit s ≡ true → rstrip_space s ≡ s
unfolding rstrip_space
rstrip_space-digits [] h = refl
rstrip_space-digits (c ∷ s) h =
    let rest : rstrip_space s ≡ s = ground (arith, rstrip_space-digits s) in
    let e : is_space (code c) ≡ false = ground arith in rw (e, rest)

drop_while-digits : (s : String) → all_chars is_digit s ≡ true → drop_while is_space s ≡ s
drop_while-digits [] h = refl
drop_while-digits (c ∷ s) h = let e : is_space (code c) ≡ false = ground arith in rw e

read_signed-digits :
    (s : String) → all_chars is_digit s ≡ true → read_signed s ≡ read_digits true 0 s
unfolding read_signed read_digits
read_signed-digits [] h = refl
read_signed-digits (c ∷ s) h =
    let p : nat_eq (code c) b'+' ≡ false = ground arith in
    let m : nat_eq (code c) b'-' ≡ false = ground arith in rw (p, m)

-- `int(str(n)) == n`
pub read_int-decimal : (n : ℕ) → read_int (decimal n) ≡ some n
unfolding read_int decimal read_digits
read_int-decimal n =
    let a = all_digits-print_from (suc n) n [] refl in
    rw (
      drop_while-digits (print_from (suc n) n []) a,
      rstrip_space-digits (print_from (suc n) n []) a,
      read_signed-digits (print_from (suc n) n []) a,
      read_digits-print_from (suc n) n true [] (omega arith),
    )

pub decimal_is_digits : (n : ℕ) → all_chars is_digit (decimal n) ≡ true
unfolding decimal
decimal_is_digits n = all_digits-print_from (suc n) n [] refl
