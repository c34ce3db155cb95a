-- ===== src/Nginx/Quoting.antt =====
-- Tokens as text, and back: `_tokenize_nginx` reads quoted words and bare delimiters.
use Prim.Native.String
use Prim.Native.String.{[], ◌∷◌}
use cozy_nm.Base.{
  ℕ, suc, ◌≡◌, refl, ap, subst, ◌∙◌, inl, inr, String, ◌==◌, eq_iff, Char, code, Bool, true, false,
  not, ◌||◌, arith, if◌then◌else◌, nat_eq, List, ◌++◌, length, all, ok, is_empty, Bool-cases,
  and-eq-true_iff,
}
use mathlib.Core.List.{append_assoc, append-nil}
use text.Mathlib.TextLemmas
use cozy_nm.Nginx.Tokens.{plain, quoted, Scanner, text_add, flushed, scan_text, tokenize_nginx}
use cozy_nm.Nginx.Directives.{
  Directive, simple, block, Directives, no_directives, directive, ends_words, parse_directives,
  parse_text,
}
use cozy_nm.Nginx.Printing.{emit, emit_all, is_word, is_clean, are_clean, parse_directives-emit_all}

-- the characters that a backslash must precede
abbrev pub needs_escape : ℕ → Bool
needs_escape c = nat_eq c b'\\' || nat_eq c b'"'

-- the word between its quotes, in front of `rest`
unfoldable pub quote_word : String → String → String
quote_word [] rest = "\"" ∷ (" " ∷ rest)
quote_word (c ∷ w) rest =
    let more = quote_word w rest in if needs_escape (code c) then "\\" ∷ (c ∷ more) else c ∷ more

unfoldable pub print_token : String → String → String
print_token t rest = if ends_words t then String.◌++◌ t (" " ∷ rest) else "\"" ∷ quote_word t rest

unfoldable pub print_tokens : List String → String
print_tokens List.[] = []
print_tokens (List.◌∷◌ t ts) = print_token t (print_tokens ts)

abbrev in_quotes : List String → String → Scanner
in_quotes tokens cur = record { tokens = tokens; current = cur; mode = quoted "\"" }

scan_ordinary :
    (tokens : List String) (cur : String) (c : Char) (text : String)
    → needs_escape (code c) ≡ false
    → scan_text (in_quotes tokens cur) (c ∷ text)
      ≡ scan_text (in_quotes tokens (text_add cur c)) text
unfolding scan_text
scan_ordinary tokens cur c text e =
    let b : nat_eq (code c) b'\\' ≡ false = ground arith in
    let q : nat_eq (code c) b'"' ≡ false = ground arith in rw (b, q)

scan_escaped :
    (tokens : List String) (cur : String) (c : Char) (text : String)
    → scan_text (in_quotes tokens cur) ("\\" ∷ (c ∷ text))
      ≡ scan_text (in_quotes tokens (text_add cur c)) text
unfolding scan_text
scan_escaped tokens cur c text = refl

scan_closing :
    (tokens : List String) (cur rest : String)
    → scan_text (in_quotes tokens cur) ("\"" ∷ (" " ∷ rest))
      ≡ scan_text (record { tokens = tokens; current = cur; mode = plain }) (" " ∷ rest)
unfolding scan_text
scan_closing tokens cur rest = refl

scan_quoted :
    (tokens : List String) (cur w rest : String)
    → scan_text (record { tokens = tokens; current = cur; mode = quoted "\"" }) (quote_word w rest)
      ≡ scan_text
          (record { tokens = tokens; current = String.◌++◌ cur w; mode = plain })
          (" " ∷ rest)
unfolding quote_word
scan_quoted tokens cur [] rest = rw (scan_closing tokens cur rest, TextLemmas.append-nil cur)
scan_quoted tokens cur (c ∷ w) rest =
    let ih = scan_quoted tokens (text_add cur c) w rest in
    let joined : String.◌++◌ (text_add cur c) w ≡ String.◌++◌ cur (c ∷ w) =
      TextLemmas.append_assoc cur (c ∷ []) w
      ∙ ap (String.◌++◌ cur)
          (TextLemmas.cons-append c [] w ∙ ap (λ v. c ∷ v) (TextLemmas.nil-append w)) in
    elim (Bool-cases (needs_escape (code c))) [
      | inl e ↦ rw (e, scan_escaped tokens cur c (quote_word w rest), ih, joined)
      | inr e ↦ rw (e, scan_ordinary tokens cur c (quote_word w rest) e, ih, joined)
    ]

-- One printed token is read.
scan-print_token :
    (tokens : List String) (t rest : String)
    → is_empty t ≡ false
    → scan_text (record { tokens = tokens; current = ""; mode = plain }) (print_token t rest)
      ≡ scan_text
          (record { tokens = tokens ++ List.◌∷◌ t List.[]; current = ""; mode = plain })
          rest
unfolding print_token scan_text flushed
scan-print_token tokens t rest h =
    let bare = λ (d : Char).
      (TextLemmas.cons-append d [] (" " ∷ rest)
        ∙ ap (λ v. d ∷ v) (TextLemmas.nil-append (" " ∷ rest))) in
    elim (Bool-cases (t == "{")) [
      | inl e ↦ rw ((eq_iff t "{").0 e, bare "{")
      | inr e ↦ elim (Bool-cases (t == "}")) [
        | inl k ↦ rw ((eq_iff t "}").0 k, bare "}")
        | inr k ↦ elim (Bool-cases (t == ";")) [
          | inl j ↦ rw ((eq_iff t ";").0 j, bare ";")
          | inr j ↦ rw (e, k, j, scan_quoted tokens "" t rest, TextLemmas.nil-append t, h)
        ]
      ]
    ]

scan-print_tokens :
    (tokens ts : List String)
    → all (λ t. not (is_empty t)) ts ≡ true
    → scan_text (record { tokens = tokens; current = ""; mode = plain }) (print_tokens ts)
      ≡ record { tokens = tokens ++ ts; current = ""; mode = plain }
unfolding print_tokens
scan-print_tokens tokens List.[] h = unfold scan_text in rw (append-nil tokens)
scan-print_tokens tokens (List.◌∷◌ t ts) h =
    let (a, b) = (and-eq-true_iff (not (is_empty t)) _).0 h in
    let n : is_empty t ≡ false = ground arith in
    rw (
      scan-print_token tokens t (print_tokens ts) n,
      scan-print_tokens (tokens ++ List.◌∷◌ t List.[]) ts b,
      append_assoc tokens (List.◌∷◌ t List.[]) ts,
    )

-- Any tokens that are not empty, quotes, spaces and line ends in them included, are read back from
-- their quoted form.
pub tokenize_nginx-print_tokens :
    (ts : List String)
    → all (λ t. not (is_empty t)) ts ≡ true
    → tokenize_nginx (print_tokens ts) ≡ ok ts
unfolding tokenize_nginx flushed
tokenize_nginx-print_tokens ts h = rw (scan-print_tokens List.[] ts h)

full_words : (ws : List String) → all is_word ws ≡ true → all (λ t. not (is_empty t)) ws ≡ true
full_words List.[] h = refl
full_words (List.◌∷◌ w ws) h = ground (arith, full_words ws)

all-append :
    {A : Type 0} (p : A → Bool) (xs ys : List A)
    → all p xs ≡ true
    → all p ys ≡ true
    → all p (xs ++ ys) ≡ true
all-append p List.[] ys h k = k
all-append p (List.◌∷◌ x xs) ys h k = ground (arith, all-append p xs ys)

mutual
  unfolding emit is_clean

  full_emit : (d : Directive) → is_clean d ≡ true → all (λ t. not (is_empty t)) (emit d) ≡ true
  full_emit (simple n ws) h =
      all-append (λ t. not (is_empty t)) (List.◌∷◌ n ws) _ (full_words (List.◌∷◌ n ws) h) refl
  full_emit (block n ws ds) h =
      let (a, b) = (and-eq-true_iff (all is_word (List.◌∷◌ n ws)) _).0 h in
      all-append (λ t. not (is_empty t)) (List.◌∷◌ n ws) _ (full_words (List.◌∷◌ n ws) a)
        (all-append (λ t. not (is_empty t)) (emit_all ds) _ (full_emit_all ds b) refl)

  full_emit_all :
      (ds : Directives) → are_clean ds ≡ true → all (λ t. not (is_empty t)) (emit_all ds) ≡ true
  full_emit_all no_directives h = refl
  full_emit_all (directive d ds) h =
      let (a, b) = (and-eq-true_iff (is_clean d) _).0 h in
      all-append (λ t. not (is_empty t)) (emit d) (emit_all ds) (full_emit d a) (full_emit_all ds b)

-- The quoted text of directives, with words that are not empty and no delimiters, is tokenized and
-- parsed as these directives.
pub parse_text-print_tokens :
    (ds : Directives) → are_clean ds ≡ true → parse_text (print_tokens (emit_all ds)) ≡ ok ds
unfolding parse_text
parse_text-print_tokens ds h =
    let whole : parse_directives (suc (length (emit_all ds))) false (emit_all ds)
        ≡ ok (ds, List.[]) =
      subst (λ l. parse_directives (suc (length (emit_all ds))) false l ≡ ok (ds, List.[]))
        (append-nil (emit_all ds))
        (parse_directives-emit_all ds false List.[] (suc (length (emit_all ds))) h (omega arith)) in
    rw (tokenize_nginx-print_tokens (emit_all ds) (full_emit_all ds h), whole)
