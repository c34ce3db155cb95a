-- ===== src/Mounts/Escapes.antt =====
-- The escapes of the mount table are undone.
use Prim.Native.String.{[], ◌∷◌}
use text.Mathlib.TextEquality.{Char-path}
use cozy_nm.Base.{
  none, ◌≡◌, refl, ap, sym, String, Char, code, true, false, if◌then◌else◌, nat_eq, Bool-cases, inl,
  inr, nat_eq_iff,
}
use cozy_nm.Mounts.Table.{unescape_from, escape_of, unescape_mount_value}

-- what the kernel writes for a character of a path: space, tab, line feed and backslash by number
unfoldable pub escape_char : Char → String → String
escape_char c rest =
    if nat_eq (code c) 32
    then "\\" ∷ ("0" ∷ ("4" ∷ ("0" ∷ rest)))
    else if nat_eq (code c) 9
    then "\\" ∷ ("0" ∷ ("1" ∷ ("1" ∷ rest)))
    else if nat_eq (code c) 10
    then "\\" ∷ ("0" ∷ ("1" ∷ ("2" ∷ rest)))
    else if nat_eq (code c) 92
    then "\\" ∷ ("1" ∷ ("3" ∷ ("4" ∷ rest)))
    else c ∷ rest

unfoldable pub escape_path : String → String
escape_path [] = []
escape_path (c ∷ s) = escape_char c (escape_path s)

escape_of-plain : (c : Char) (t : String) → nat_eq (code c) 92 ≡ false → escape_of c t ≡ none
unfolding escape_of
escape_of-plain c [] h = refl
escape_of-plain c (x ∷ []) h = refl
escape_of-plain c (x ∷ (y ∷ [])) h = refl
escape_of-plain c (x ∷ (y ∷ (z ∷ t))) h = rw h

-- a character with a given number
same_char : (d c : Char) (t : String) → nat_eq (code c) (code d) ≡ true → d ∷ t ≡ c ∷ t
same_char d c t h = ap (λ x. x ∷ t) (sym (Char-path c d ((nat_eq_iff (code c) (code d)).0 h)))

unescape_from-plain :
    (c : Char) (t : String) → escape_of c t ≡ none → unescape_from 0 (c ∷ t) ≡ c ∷ unescape_from 0 t
unfolding unescape_from
unescape_from-plain c t h = rw h

unescape_from-escape_char :
    (c : Char) (t : String) → unescape_from 0 (escape_char c t) ≡ c ∷ unescape_from 0 t
unfolding escape_char unescape_from escape_of
unescape_from-escape_char c t = elim (Bool-cases (nat_eq (code c) 32)) [
  | inl e ↦ rw e (same_char " " c (unescape_from 0 t) e)
  | inr e ↦ elim (Bool-cases (nat_eq (code c) 9)) [
    | inl k ↦ rw (e, k) (same_char "\t" c (unescape_from 0 t) k)
    | inr k ↦ elim (Bool-cases (nat_eq (code c) 10)) [
      | inl j ↦ rw (e, k, j) (same_char "\n" c (unescape_from 0 t) j)
      | inr j ↦ elim (Bool-cases (nat_eq (code c) 92)) [
        | inl i ↦ rw (e, k, j, i) (same_char "\\" c (unescape_from 0 t) i)
        | inr i ↦ rw (e, k, j, i) (unescape_from-plain c t (escape_of-plain c t i))
      ]
    ]
  ]
]

unescape_from-escape_path : (s : String) → unescape_from 0 (escape_path s) ≡ s
unfolding escape_path unescape_from
unescape_from-escape_path [] = refl
unescape_from-escape_path (c ∷ s) =
    rw (unescape_from-escape_char c (escape_path s), unescape_from-escape_path s)

-- A path is read back from what the kernel writes for it.
pub unescape_mount_value-escape_path : (s : String) → unescape_mount_value (escape_path s) ≡ s
unfolding unescape_mount_value
unescape_mount_value-escape_path s = unescape_from-escape_path s
