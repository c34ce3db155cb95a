-- ===== src/HeadAuth/Origin.antt =====
-- services/head_auth.py: `safe_next_url` and `same_origin`, with what they use of
-- `urllib.parse.urlsplit`: the scheme and the authority of a URL. `checked` stands for the checks
-- of a bracketed host and of Unicode normalisation, which only raise.
pub mod Targets
use Prim.Native.String.{[], ◌∷◌}
use cozy_nm.Base.{
  ℕ, String, ◌==◌, Char, code, Bool, true, false, not, ◌&&◌, ◌||◌, Option, none, some, nat_eq, leb,
  if◌then◌else◌, has_prefix, drop_while, take_until, any_char, is_empty, or_else, Result, ok, err,
}

pub data UrlError : Type 0 where
  invalid_url : UrlError

pub record SplitUrl : Type 0 where
  pub scheme : String
  pub netloc : String

-- the code points that the constants of `urllib.parse` list
abbrev pub is_c0_or_space : ℕ → Bool
is_c0_or_space c = leb c 32

abbrev pub is_unsafe : ℕ → Bool
is_unsafe c = nat_eq c 9 || nat_eq c 10 || nat_eq c 13

abbrev pub is_alpha : ℕ → Bool
is_alpha c = leb b'A' c && leb c b'Z' || leb b'a' c && leb c b'z'

abbrev pub is_scheme_char : ℕ → Bool
is_scheme_char c =
    is_alpha c || leb b'0' c && leb c b'9' || nat_eq c b'+' || nat_eq c b'-' || nat_eq c b'.'

abbrev pub ends_authority : ℕ → Bool
ends_authority c = nat_eq c b'/' || nat_eq c b'?' || nat_eq c b'#'

-- `url.replace(b, "")` for each unsafe byte
unfoldable pub remove_unsafe : String → String
remove_unsafe [] = []
remove_unsafe (c ∷ s) = let rest = remove_unsafe s in if is_unsafe (code c) then rest else c ∷ rest

-- what stands before the first colon and what stands after it, where all before it are scheme
-- characters
unfoldable pub cut_scheme : String → Option (String × String)
cut_scheme [] = none
cut_scheme (c ∷ s) =
    let rest = cut_scheme s in
    if nat_eq (code c) b':'
    then some ([], s)
    else if is_scheme_char (code c)
    then elim rest [ none ↦ none | some (scheme, after) ↦ some (c ∷ scheme, after) ]
    else none

unfoldable pub split_scheme : String → String × String
split_scheme [] = ([], [])
split_scheme (c ∷ s) =
    if is_alpha (code c)
    then elim (cut_scheme (c ∷ s)) [ none ↦ ([], c ∷ s) | some (scheme, after) ↦ (scheme, after) ]
    else ([], c ∷ s)

-- `_splitnetloc` behind a leading "//"
unfoldable pub authority : String → String
authority (c ∷ (d ∷ s)) =
    if nat_eq (code c) b'/' && nat_eq (code d) b'/' then take_until ends_authority s else []
authority _ = []

unfoldable pub brackets_match : String → Bool
brackets_match netloc =
    if any_char (λ c. nat_eq c b'[') netloc
    then any_char (λ c. nat_eq c b']') netloc
    else not (any_char (λ c. nat_eq c b']') netloc)

module _ (checked : String → Bool) where
  -- `urlsplit`; the scheme is only asked for being empty, so its case is left alone
  unfoldable pub urlsplit : String → Result UrlError SplitUrl
  urlsplit url =
      let (scheme, after) = split_scheme (remove_unsafe (drop_while is_c0_or_space url)) in
      let netloc = authority after in
      if brackets_match netloc && checked netloc
      then ok (record { scheme = scheme; netloc = netloc })
      else err UrlError.invalid_url

  -- `safe_next_url`
  unfoldable pub safe_next_url : Option String → String → Result UrlError String
  safe_next_url none default = ok default
  safe_next_url (some value) default =
      if is_empty value || not (has_prefix "/" value) || has_prefix "//" value
      then ok default
      else elim (urlsplit value) [
        | err e ↦ err e
        | ok parsed ↦
            if not (is_empty parsed.scheme) || not (is_empty parsed.netloc)
            then ok default
            else ok value
      ]

  -- `same_origin`, over the headers that it reads; an empty `Origin` falls back to `Referer`
  unfoldable pub same_origin : Option String → Option String → Option String → Result UrlError Bool
  same_origin host origin referer =
      let expected = or_else host "" in
      let supplied =
        if is_empty (or_else origin "") then or_else referer "" else or_else origin "" in
      if is_empty expected || is_empty supplied
      then ok false
      else elim (urlsplit supplied) [ err e ↦ err e | ok parsed ↦ ok (parsed.netloc == expected) ]
