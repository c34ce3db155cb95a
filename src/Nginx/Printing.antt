-- ===== src/Nginx/Printing.antt =====
-- Directives as tokens, and back: `_parse_directives` reads what stands for a directive.
use cozy_nm.Base.{
  ℕ, zero, suc, ◌≤◌, ◌<◌, ◌≡◌, refl, String, ◌==◌, Bool, true, false, not, ◌&&◌, arith, List, [],
  ◌∷◌, ◌++◌, length, length-append, all, ok, is_empty, and-eq-true_iff,
}
use mathlib.Core.List.{append_assoc}
use cozy_nm.Nginx.Directives.{
  Directive, simple, block, Directives, no_directives, directive, ends_words, words_of, after_words,
  Parsed, prepend, parse_terminated, parse_statement, parse_round, parse_directives,
}

unfoldable mutual
  pub emit : Directive → List String
  emit (simple name arguments) = name ∷ (arguments ++ ";" ∷ [])
  emit (block name arguments children) = name ∷ (arguments ++ "{" ∷ (emit_all children ++ "}" ∷ []))

  pub emit_all : Directives → List String
  emit_all no_directives = []
  emit_all (directive d ds) = emit d ++ emit_all ds

-- a token that is no delimiter
abbrev pub is_word : String → Bool
is_word t = not (is_empty t) && not (ends_words t)

unfoldable mutual
  pub is_clean : Directive → Bool
  is_clean (simple name arguments) = all is_word (name ∷ arguments)
  is_clean (block name arguments children) = all is_word (name ∷ arguments) && are_clean children

  pub are_clean : Directives → Bool
  are_clean no_directives = true
  are_clean (directive d ds) = is_clean d && are_clean ds

words_of-words :
    (ws : List String) (t : String) (ts : List String)
    → all is_word ws ≡ true
    → ends_words t ≡ true
    → words_of (ws ++ t ∷ ts) ≡ ws
unfolding words_of
words_of-words [] t ts h e = rw e
words_of-words (w ∷ ws) t ts h e =
    let (a, b) = (and-eq-true_iff (is_word w) _).0 h in
    let n : ends_words w ≡ false = ground arith in rw (n, words_of-words ws t ts b e)

after_words-words :
    (ws : List String) (t : String) (ts : List String)
    → all is_word ws ≡ true
    → ends_words t ≡ true
    → after_words (ws ++ t ∷ ts) ≡ t ∷ ts
unfolding after_words
after_words-words [] t ts h e = rw e
after_words-words (w ∷ ws) t ts h e =
    let (a, b) = (and-eq-true_iff (is_word w) _).0 h in
    let n : ends_words w ≡ false = ground arith in rw (n, after_words-words ws t ts b e)

parse_round-words :
    (parse : Bool → List String → Parsed) (nested : Bool) (w : String) (ws : List String)
    (t : String) (ts : List String)
    → all is_word (w ∷ ws) ≡ true
    → ends_words t ≡ true
    → parse_round parse nested (w ∷ (ws ++ t ∷ ts)) ≡ parse_terminated parse nested w ws (t ∷ ts)
unfolding parse_round parse_statement
parse_round-words parse nested w ws t ts h e =
    let (a, b) = (and-eq-true_iff (is_word w) _).0 h in
    let n : (w == "}") ≡ false = ground arith in
    rw (n, words_of-words (w ∷ ws) t ts h e, after_words-words (w ∷ ws) t ts h e)

parse-words :
    (f : ℕ) (nested : Bool) (w : String) (ws : List String) (t : String) (ts : List String)
    → all is_word (w ∷ ws) ≡ true
    → ends_words t ≡ true
    → parse_directives (suc f) nested (w ∷ (ws ++ t ∷ ts))
      ≡ parse_terminated (parse_directives f) nested w ws (t ∷ ts)
unfolding parse_directives
parse-words f nested w ws t ts h e = parse_round-words (parse_directives f) nested w ws t ts h e

-- what ends a list of directives, and what is left behind it
abbrev pub ending : Bool → List String → List String
ending true rest = "}" ∷ rest
ending false rest = []

abbrev pub left : Bool → List String → List String
left true rest = rest
left false rest = []

parse-ending :
    (f : ℕ) (nested : Bool) (rest : List String)
    → parse_directives (suc f) nested (ending nested rest) ≡ ok (no_directives, left nested rest)
unfolding parse_directives parse_round
parse-ending f true rest = refl
parse-ending f false rest = refl

length-emit_pos : (d : Directive) → 0 < length (emit d)
unfolding emit
length-emit_pos (simple name arguments) = omega arith
length-emit_pos (block name arguments children) = omega arith

-- a bound below the fuel shows that there is some
spare : (n f : ℕ) → n < f → (g : ℕ) × (f ≡ suc g)
spare n zero h = absurd (omega arith)
spare n (suc g) h = (g, refl)

mutual
  unfolding is_clean emit parse_terminated

  parse-emit :
      (d : Directive) (nested : Bool) (tail : List String) (f : ℕ)
      → is_clean d ≡ true
      → length (emit d) ≤ f
      → parse_directives (suc f) nested (emit d ++ tail)
        ≡ prepend d (parse_directives f nested tail)
  parse-emit (simple n ws) nested tail f c h =
      rw (append_assoc ws (";" ∷ []) tail, parse-words f nested n ws ";" tail c refl)
  parse-emit (block n ws ds) nested tail f c h =
      let (cw, cd) = (and-eq-true_iff (all is_word (n ∷ ws)) _).0 c in
      let l = length-append ws ("{" ∷ (emit_all ds ++ "}" ∷ [])) in
      let k = length-append (emit_all ds) ("}" ∷ []) in
      let (g, e) = spare (length (emit_all ds)) f (omega (arith, l, k, h)) in
      let inner = parse-emit_all ds true tail g cd (omega (arith, l, k, h, e)) in
      let goes : parse_directives f true (emit_all ds ++ "}" ∷ tail) ≡ ok (ds, tail) =
        rw (e, inner) in
      rw (
        append_assoc ws ("{" ∷ (emit_all ds ++ "}" ∷ [])) tail,
        append_assoc (emit_all ds) ("}" ∷ []) tail,
        parse-words f nested n ws "{" (emit_all ds ++ "}" ∷ tail) cw refl,
        goes,
      )

  parse-emit_all :
      (ds : Directives) (nested : Bool) (rest : List String) (f : ℕ)
      → are_clean ds ≡ true
      → length (emit_all ds) ≤ f
      → parse_directives (suc f) nested (emit_all ds ++ ending nested rest)
        ≡ ok (ds, left nested rest)
  parse-emit_all no_directives nested rest f c h = parse-ending f nested rest
  parse-emit_all (directive d ds) nested rest f c h =
      let (cd, cs) = (and-eq-true_iff (is_clean d) _).0 c in
      let l = length-append (emit d) (emit_all ds) in
      let (g, e) = spare (length (emit_all ds)) f (omega (arith, l, h, length-emit_pos d)) in
      let more = parse-emit_all ds nested rest g cs (omega (arith, l, h, e, length-emit_pos d)) in
      rw (
        append_assoc (emit d) (emit_all ds) (ending nested rest),
        parse-emit d nested (emit_all ds ++ ending nested rest) f cd (omega (arith, l, h)),
        e,
        more,
      )

-- Where no word of some directives is empty or a delimiter, and there is more fuel than their tokens,
-- the tokens are parsed as these directives: up to the closing brace behind them in a block, and
-- otherwise as the whole file.
pub parse_directives-emit_all :
    (ds : Directives) (nested : Bool) (rest : List String) (f : ℕ)
    → are_clean ds ≡ true
    → length (emit_all ds) < f
    → parse_directives f nested (emit_all ds ++ ending nested rest) ≡ ok (ds, left nested rest)
parse_directives-emit_all ds nested rest f c h =
    let (g, e) = spare _ f h in rw (e, parse-emit_all ds nested rest g c (omega (arith, e, h)))
