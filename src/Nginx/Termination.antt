-- ===== src/Nginx/Termination.antt =====
-- More fuel than tokens is enough for `_parse_directives`.
use cozy_nm.Base.{
  ℕ, zero, suc, ◌≤◌, ◌≡◌, refl, String, ◌==◌, Bool, true, false, arith, if◌then◌else◌, List, [],
  ◌∷◌, length, ok, err, bind_result, Bool-cases, inl, inr,
}
use cozy_nm.Nginx.Tokens.{NginxError, out_of_fuel}
use cozy_nm.Nginx.Directives.{
  Directives, Directive, simple, block, words_of, after_words, Parsed, prepend, parse_terminated,
  parse_unnamed, parse_statement, parse_round, parse_directives,
}

abbrev pub lacks_fuel : NginxError → Bool
lacks_fuel out_of_fuel = true
lacks_fuel _ = false

-- no lack of fuel, and no more than `n` tokens are left
abbrev pub Done : ℕ → Parsed → Type 0
Done n (ok (ds, rest)) = length rest ≤ n
Done n (err e) = lacks_fuel e ≡ false

Done-mono : (m n : ℕ) (r : Parsed) → m ≤ n → Done m r → Done n r
Done-mono m n (ok (ds, rest)) h d = omega (arith, h, d)
Done-mono m n (err e) h d = d

Done-prepend : (n : ℕ) (d : Directive) (r : Parsed) → Done n r → Done n (prepend d r)
Done-prepend n d (ok (ds, rest)) h = h
Done-prepend n d (err e) h = h

length-after_words-le : (ts : List String) → length (after_words ts) ≤ length ts
unfolding after_words
length-after_words-le [] = omega arith
length-after_words-le (t ∷ ts) = ground (arith, length-after_words-le ts)

module _ (parse : Bool → List String → Parsed) (m : ℕ)
    (done : (nested : Bool) (ts : List String) → length ts ≤ m → Done m (parse nested ts)) where
  Done-block :
      (nested : Bool) (w : String) (ws : List String) (r : Parsed)
      → Done m r
      → Done m (bind_result r λ (children, rest). prepend (block w ws children) (parse nested rest))
  Done-block nested w ws (err e) h = h
  Done-block nested w ws (ok (ds, rest)) h =
      Done-prepend m (block w ws ds) (parse nested rest) (done nested rest h)

  Done-parse_terminated :
      (nested : Bool) (w : String) (ws ts : List String)
      → length ts ≤ suc m
      → Done m (parse_terminated parse nested w ws ts)
  unfolding parse_terminated
  Done-parse_terminated nested w ws [] h = refl
  Done-parse_terminated nested w ws (t ∷ ts) h =
      let small : length ts ≤ m = omega (arith, h) in
      elim (Bool-cases (t == "}")) [
        | inl e ↦ rw e refl
        | inr e ↦ elim (Bool-cases (t == ";")) [
          | inl k ↦
              rw (e, k) (Done-prepend m (simple w ws) (parse nested ts) (done nested ts small))
          | inr k ↦ rw (e, k) (Done-block nested w ws (parse true ts) (done true ts small))
        ]
      ]

  Done-parse_unnamed :
      (nested : Bool) (ts : List String)
      → length ts ≤ suc m
      → Done m (parse_unnamed parse nested ts)
  unfolding parse_unnamed
  Done-parse_unnamed nested [] h = refl
  Done-parse_unnamed nested (t ∷ ts) h = elim (Bool-cases (t == ";")) [
    | inl e ↦ rw e (done nested ts (omega (arith, h)))
    | inr e ↦ rw e refl
  ]

  Done-parse_statement :
      (nested : Bool) (ws ts : List String)
      → length ts ≤ suc m
      → Done m (parse_statement parse nested ws ts)
  unfolding parse_statement
  Done-parse_statement nested [] ts h = Done-parse_unnamed nested ts h
  Done-parse_statement nested (w ∷ ws) ts h = Done-parse_terminated nested w ws ts h

  Done-parse_round :
      (nested : Bool) (ts : List String) → length ts ≤ suc m → Done m (parse_round parse nested ts)
  unfolding parse_round
  Done-parse_round true [] h = refl
  Done-parse_round false [] h = omega arith
  Done-parse_round nested (t ∷ ts) h = elim (Bool-cases (t == "}")) [
    | inl e ↦ rw e (at_brace nested)
    | inr e ↦ rw e (
        Done-parse_statement nested (words_of (t ∷ ts)) (after_words (t ∷ ts))
          (omega (arith, h, length-after_words-le (t ∷ ts))))
  ]
    where
      at_brace :
          (n : Bool)
          → Done m (
              if n
              then ok (Directives.no_directives, ts)
              else err NginxError.unexpected_closing_brace)
      at_brace true = omega (arith, h)
      at_brace false = refl

-- With more fuel than tokens the parser never runs out of it, and leaves no more tokens than it got.
pub parse_directives-Done :
    (f : ℕ) (nested : Bool) (ts : List String)
    → length ts ≤ f
    → Done f (parse_directives (suc f) nested ts)
unfolding parse_directives
parse_directives-Done zero nested [] h =
    unfold parse_round in
    elim (Bool-cases nested) [ inl e ↦ rw e refl | inr e ↦ rw e (omega arith) ]
parse_directives-Done zero nested (t ∷ ts) h = absurd (omega arith)
parse_directives-Done (suc f) nested ts h =
    Done-mono f (suc f) _ (omega arith)
      (Done-parse_round (parse_directives (suc f)) f (parse_directives-Done f) nested ts h)
