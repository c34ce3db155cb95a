-- ===== src/Bridges/Names.antt =====
-- The texts that services/bridges.py looks into: SERVICE_NAME_RE, DNS_NAME_RE, and NAME=value entries.
use Prim.Native.String.{[], ◌∷◌, count}
use cozy_nm.Base.{
  ℕ, zero, suc, ltb, ◌≡◌, refl, String, code, Bool, true, false, ◌&&◌, ◌||◌, if◌then◌else◌, nat_eq,
  leb, is_empty, all_chars,
}
use cozy_nm.Bridges.Decimal.{is_digit}

abbrev pub is_alnum : ℕ → Bool
is_alnum c = is_digit c || leb b'A' c && leb c b'Z' || leb b'a' c && leb c b'z'

abbrev is_service_char : ℕ → Bool
is_service_char c = is_alnum c || nat_eq c b'_' || nat_eq c b'.' || nat_eq c b'-'

abbrev is_dns_char : ℕ → Bool
is_dns_char c = is_alnum c || nat_eq c b'.' || nat_eq c b'-'

-- the last character is a letter or a digit
abbrev pub ends_alnum : String → Bool
ends_alnum [] = false
ends_alnum (c ∷ s) = let rest = ends_alnum s in if is_empty s then is_alnum (code c) else rest

-- SERVICE_NAME_RE
unfoldable pub is_service_name : String → Bool
is_service_name [] = false
is_service_name (c ∷ s) = is_alnum (code c) && all_chars is_service_char s && leb (count s) 119

-- DNS_NAME_RE
unfoldable pub is_dns_name : String → Bool
is_dns_name [] = false
is_dns_name (c ∷ s) =
    is_alnum (code c)
    && (is_empty s || all_chars is_dns_char s && leb (count s) 252 && ends_alnum s)

-- item.split("=", 1)
abbrev pub split_value : String → String
split_value [] = []
split_value (c ∷ s) = let rest = split_value s in if nat_eq (code c) b'=' then s else rest

-- s[n:]
abbrev pub drop_text : ℕ → String → String
drop_text zero s = s
drop_text (suc n) [] = []
drop_text (suc n) (c ∷ s) = drop_text n s

-- s < t, by code points
abbrev pub text_before : String → String → Bool
text_before s [] = false
text_before [] (d ∷ t) = true
text_before (c ∷ s) (d ∷ t) =
    let rest = text_before s t in ltb (code c) (code d) || nat_eq (code c) (code d) && rest

pub is_service_name-non_empty : (s : String) → is_service_name s ≡ true → is_empty s ≡ false
unfolding is_service_name
is_service_name-non_empty [] h = absurd (cc)
is_service_name-non_empty (c ∷ s) h = refl
