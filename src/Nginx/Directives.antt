-- ===== src/Nginx/Directives.antt =====
-- collectors/public_interfaces.py: `_Directive` and `_parse_directives`. A directive without children
-- and one with a block of them are two constructors. An index into the tokens is the list of those
-- from there on. A call costs one unit of fuel for each round of its loop.
use cozy_nm.Base.{
  ℕ, zero, suc, String, ◌==◌, Bool, true, false, ◌||◌, if◌then◌else◌, List, [], ◌∷◌, Result, ok,
  err, bind_result, length,
}
use cozy_nm.Nginx.Tokens.{
  NginxError, unexpected_closing_brace, name_missing, terminator_missing, unterminated_block,
  out_of_fuel, tokenize_nginx,
}

mutual
  pub data Directive : Type 0 where
    simple : (name : String) → (arguments : List String) → Directive
    block : (name : String) → (arguments : List String) → (children : Directives) → Directive

  pub data Directives : Type 0 where
    no_directives : Directives
    directive : Directive → Directives → Directives

abbrev pub ends_words : String → Bool
ends_words t = t == "{" || t == "}" || t == ";"

-- the words up to the next delimiter
unfoldable pub words_of : List String → List String
words_of [] = []
words_of (t ∷ ts) = let rest = words_of ts in if ends_words t then [] else t ∷ rest

-- and the tokens from there on
unfoldable pub after_words : List String → List String
after_words [] = []
after_words (t ∷ ts) = let rest = after_words ts in if ends_words t then t ∷ ts else rest

abbrev pub Parsed : Type 0
Parsed = Result NginxError (Directives × List String)

-- `directives.append`, before the rest of the loop
abbrev pub prepend : Directive → Parsed → Parsed
prepend d r = bind_result r λ (ds, rest). ok (directive d ds, rest)

module _ (parse : Bool → List String → Parsed) where
  -- a directive with words, at its terminator
  unfoldable pub parse_terminated :
      Bool → (word : String) → (words : List String) → List String → Parsed
  parse_terminated nested word words [] = err (terminator_missing word)
  parse_terminated nested word words (t ∷ ts) =
      if t == "}"
      then err (terminator_missing word)
      else if t == ";"
      then prepend (simple word words) (parse nested ts)
      else bind_result (parse true ts)
          λ (children, rest). prepend (block word words children) (parse nested rest)

  unfoldable pub parse_unnamed : Bool → List String → Parsed
  parse_unnamed nested [] = err name_missing
  parse_unnamed nested (t ∷ ts) = if t == ";" then parse nested ts else err name_missing

  unfoldable pub parse_statement : Bool → (words : List String) → List String → Parsed
  parse_statement nested [] rest = parse_unnamed nested rest
  parse_statement nested (word ∷ words) rest = parse_terminated nested word words rest

  -- one round of the loop
  unfoldable pub parse_round : Bool → List String → Parsed
  unfolding parse_statement
  parse_round nested [] = if nested then err unterminated_block else ok (no_directives, [])
  parse_round nested (t ∷ ts) =
      if t == "}"
      then if nested then ok (no_directives, ts) else err unexpected_closing_brace
      else parse_statement nested (words_of (t ∷ ts)) (after_words (t ∷ ts))

unfoldable pub parse_directives : ℕ → Bool → List String → Parsed
unfolding parse_round
parse_directives zero nested ts = err out_of_fuel
parse_directives (suc f) nested ts = parse_round (parse_directives f) nested ts

-- `directives, _ = _parse_directives(_tokenize_nginx(text))`
unfoldable pub parse_text : String → Result NginxError Directives
parse_text text = bind_result (tokenize_nginx text) λ tokens.
    bind_result (parse_directives (suc (length tokens)) false tokens)
      λ (directives, rest). ok directives
