-- ===== src/Base/Texts.antt =====
-- Texts walked by character: Python's string methods, as far as the program uses them.
use Prim.Native.Nat.{ℕ, zero, suc}
use Prim.Native.Char.{code}
use Prim.Native.String.{String, [], ◌∷◌, count}
use mathlib.Core.Bool.{Bool, true, false, ◌&&◌, ◌||◌}
use mathlib.Core.Option.{Option, none, some}
use cozy_nm.Base.Tests.{nat_eq, if◌then◌else◌}

abbrev pub any_char : (ℕ → Bool) → String → Bool
any_char p [] = false
any_char p (c ∷ s) = p (code c) || any_char p s

abbrev pub all_chars : (ℕ → Bool) → String → Bool
all_chars p [] = true
all_chars p (c ∷ s) = p (code c) && all_chars p s

-- s.startswith(prefix)
abbrev pub has_prefix : String → String → Bool
has_prefix [] s = true
has_prefix (p ∷ ps) [] = false
has_prefix (p ∷ ps) (c ∷ s) = nat_eq (code p) (code c) && has_prefix ps s

-- s[n:]
abbrev pub text_drop : ℕ → String → String
text_drop zero s = s
text_drop (suc n) [] = []
text_drop (suc n) (c ∷ s) = text_drop n s

-- the longest suffix that does not begin with a character of `p` (lstrip)
abbrev pub drop_while : (ℕ → Bool) → String → String
drop_while p [] = []
drop_while p (c ∷ s) = let rest = drop_while p s in if p (code c) then rest else c ∷ s

-- the longest prefix free of characters of `p`
abbrev pub take_until : (ℕ → Bool) → String → String
take_until p [] = []
take_until p (c ∷ s) = let rest = take_until p s in if p (code c) then [] else c ∷ rest

abbrev pub is_empty : String → Bool
is_empty [] = true
is_empty (c ∷ s) = false

-- s.rstrip(chars), for the characters of `p`
abbrev pub rstrip : (ℕ → Bool) → String → String
rstrip p [] = []
rstrip p (c ∷ s) = let rest = rstrip p s in if p (code c) && is_empty rest then [] else c ∷ rest

-- s.strip(chars)
abbrev pub strip_chars : (ℕ → Bool) → String → String
strip_chars p s = rstrip p (drop_while p s)

-- s.split(sep, 1) where `sep` occurs: what stands before it and what stands behind it
abbrev pub cut : (sep : String) → String → Option (String × String)
cut sep [] = none
cut sep (c ∷ s) =
    let rest = cut sep s in
    if has_prefix sep (c ∷ s)
    then some ([], text_drop (count sep) (c ∷ s))
    else elim rest [ none ↦ none | some (before, behind) ↦ some (c ∷ before, behind) ]

-- s.count(c) for a character
abbrev pub count_char : ℕ → String → ℕ
count_char c [] = 0
count_char c (d ∷ s) = let rest = count_char c s in if nat_eq (code d) c then suc rest else rest
