-- ===== src/Mounts/Slashes.antt =====
-- Paths taken apart at their slashes, normalized and put together again.
use Prim.Native.String
use Prim.Native.String.{[], ◌∷◌}
use text.Mathlib.TextLemmas.{cons-append, nil-append}
use mathlib.Core.List.{append-nil}
use cozy_nm.Base.{
  Char, ap, ◌≡◌, refl, sym, ◌∙◌, String, ◌==◌, true, false, ◌&&◌, ◌||◌, code, any_char, has_prefix,
  is_empty, rstrip, drop_while, List, ◌++◌, All, All-append, Bool-cases, inl, inr,
}
use cozy_nm.Devices.Scan.{split_on, in_front}
use cozy_nm.Hosts.Lexical.{IsPlain, keep_parts-id}
use cozy_nm.Hosts.Paths.{drop_last, keep_part, keep_parts}
use cozy_nm.Mounts.Correlated.{is_slash}
use cozy_nm.Mounts.Exports.{join_names}

abbrev pub IsWhole : String → Type 0
IsWhole part = any_char is_slash part ≡ false

in_front-IsWhole :
    (c : Char) (parts : List String)
    → is_slash (code c) ≡ false
    → All IsWhole parts
    → All IsWhole (in_front c parts)
in_front-IsWhole c List.[] e h = (rw e refl, tt)
in_front-IsWhole c (List.◌∷◌ part parts) e (p, h) = (rw e p, h)

pub split_on-IsWhole : (s : String) → All IsWhole (split_on is_slash s)
unfolding split_on
split_on-IsWhole [] = (refl, tt)
split_on-IsWhole (c ∷ s) = elim (Bool-cases (is_slash (code c))) [
  | inl e ↦ rw e (refl, split_on-IsWhole s)
  | inr e ↦ rw e (in_front-IsWhole c (split_on is_slash s) e (split_on-IsWhole s))
]

-- a text without a slash is one part
split_on-whole : (s : String) → IsWhole s → split_on is_slash s ≡ List.◌∷◌ s List.[]
unfolding split_on
split_on-whole [] h = refl
split_on-whole (c ∷ s) h = elim (Bool-cases (is_slash (code c))) [
  | inl e ↦ absurd (cc (rw e at h))
  | inr e ↦ rw (e, split_on-whole s (rw e at h)) refl
]

in_front-twice :
    (c d : Char) (xs ys : List String)
    → in_front c (in_front d xs) ++ ys ≡ in_front c (in_front d xs ++ ys)
in_front-twice c d List.[] ys = refl
in_front-twice c d (List.◌∷◌ x xs) ys = refl

in_front-append :
    (c : Char) (s : String) (parts : List String)
    → in_front c (split_on is_slash s) ++ parts ≡ in_front c (split_on is_slash s ++ parts)
unfolding split_on
in_front-append c [] parts = refl
in_front-append c (d ∷ s) parts = elim (Bool-cases (is_slash (code d))) [
  | inl e ↦ rw e refl
  | inr e ↦ rw e (in_front-twice c d (split_on is_slash s) parts)
]

pub split_on-append :
    (s t : String)
    → split_on is_slash (String.◌++◌ s ("/" ∷ t)) ≡ split_on is_slash s ++ split_on is_slash t
unfolding split_on
split_on-append [] t = rw (nil-append ("/" ∷ t)) refl
split_on-append (c ∷ s) t = elim (Bool-cases (is_slash (code c))) [
  | inl e ↦ rw (cons-append c s ("/" ∷ t), e, split_on-append s t) refl
  | inr e ↦ rw (cons-append c s ("/" ∷ t), e, split_on-append s t) (sym (in_front-append c s _))
]

drop_last-IsWhole : (xs : List String) → All IsWhole xs → All IsWhole (drop_last xs)
unfolding drop_last
drop_last-IsWhole List.[] h = h
drop_last-IsWhole (List.◌∷◌ x List.[]) h = tt
drop_last-IsWhole (List.◌∷◌ x (List.◌∷◌ y xs)) (a, h) = (a, drop_last-IsWhole (List.◌∷◌ y xs) h)

keep_part-IsWhole :
    (part : String) (kept : List String)
    → IsWhole part
    → All IsWhole kept
    → All IsWhole (keep_part part kept)
unfolding keep_part
keep_part-IsWhole part kept w h = elim (Bool-cases (is_empty part || part == "/" || part == ".")) [
  | inl e ↦ rw e h
  | inr e ↦ elim (Bool-cases (part == "..")) [
    | inl k ↦ rw (e, k) (drop_last-IsWhole kept h)
    | inr k ↦ rw (e, k) (All-append IsWhole kept (List.◌∷◌ part List.[]) h (w, tt))
  ]
]

pub keep_parts-IsWhole :
    (ps kept : List String) → All IsWhole ps → All IsWhole kept → All IsWhole (keep_parts ps kept)
unfolding keep_parts
keep_parts-IsWhole List.[] kept w h = h
keep_parts-IsWhole (List.◌∷◌ p ps) kept (v, w) h =
    keep_parts-IsWhole ps (keep_part p kept) w (keep_part-IsWhole p kept v h)

pub keep_parts-append :
    (ps qs kept : List String) → keep_parts (ps ++ qs) kept ≡ keep_parts qs (keep_parts ps kept)
unfolding keep_parts
keep_parts-append List.[] qs kept = refl
keep_parts-append (List.◌∷◌ p ps) qs kept = keep_parts-append ps qs (keep_part p kept)

split_on-join_names :
    (x : String) (xs : List String)
    → IsWhole x
    → All IsWhole xs
    → split_on is_slash (join_names (List.◌∷◌ x xs)) ≡ List.◌∷◌ x xs
unfolding join_names
split_on-join_names x List.[] w h = split_on-whole x w
split_on-join_names x (List.◌∷◌ y xs) w (v, h) =
    rw
      (
        split_on-append x (join_names (List.◌∷◌ y xs)),
        split_on-whole x w,
        split_on-join_names y xs v h,
      )
      refl

pub keep_parts-join_names :
    (names kept : List String)
    → All IsWhole names
    → All IsPlain names
    → keep_parts (split_on is_slash (join_names names)) kept ≡ kept ++ names
unfolding keep_parts keep_part split_on join_names
keep_parts-join_names List.[] kept w h = sym (append-nil kept)
keep_parts-join_names (List.◌∷◌ x xs) kept (v, w) h =
    rw (split_on-join_names x xs v w) (keep_parts-id (List.◌∷◌ x xs) kept h)

no_slash-first :
    (c : Char) (s : String) → is_slash (code c) ≡ false → has_prefix "/" (c ∷ s) ≡ false
no_slash-first c s e = ap (λ b. b && true) e

pub no_slash : (s : String) → has_prefix "/" (drop_while is_slash s) ≡ false
no_slash [] = refl
no_slash (c ∷ s) = elim (Bool-cases (is_slash (code c))) [
  | inl e ↦ rw e (no_slash s)
  | inr e ↦ rw e (no_slash-first c s e)
]

abbrev pub AreBlank : List String → Type 0
AreBlank parts = All (λ part. is_empty part ≡ true) parts

pub keep_parts-blank : (parts kept : List String) → AreBlank parts → keep_parts parts kept ≡ kept
unfolding keep_parts keep_part
keep_parts-blank List.[] kept h = refl
keep_parts-blank (List.◌∷◌ part parts) kept (p, h) = rw (p, keep_parts-blank parts kept h) refl

empty_text : (s : String) → is_empty s ≡ true → s ≡ ""
empty_text [] h = refl
empty_text (c ∷ s) h = absurd (cc)

split_on-slash :
    (c : Char) (s : String)
    → is_slash (code c) ≡ true
    → split_on is_slash (c ∷ s) ≡ List.◌∷◌ "" (split_on is_slash s)
unfolding split_on
split_on-slash c s e = rw e refl

split_on-other :
    (c : Char) (s : String)
    → is_slash (code c) ≡ false
    → split_on is_slash (c ∷ s) ≡ in_front c (split_on is_slash s)
unfolding split_on
split_on-other c s e = rw e refl

-- slashes at the end add empty parts
pub split_on-rstrip :
    (s : String)
    → (blank : List String) × (split_on is_slash s ≡ split_on is_slash (rstrip is_slash s) ++ blank)
      × AreBlank blank
unfolding split_on
split_on-rstrip [] = (List.[], refl, tt)
split_on-rstrip (c ∷ s) =
    let (blank, e, h) = split_on-rstrip s in
    elim (Bool-cases (is_slash (code c))) [
      | inr k ↦ (
        blank,
        rw (k, e)
            (sym (in_front-append c (rstrip is_slash s) blank)
              ∙ ap (λ parts. parts ++ blank) (sym (split_on-other c (rstrip is_slash s) k))),
        h,
      )
      | inl k ↦ elim (Bool-cases (is_empty (rstrip is_slash s))) [
        | inr m ↦ (
          blank,
          rw (k, m, e)
              (ap (λ parts. parts ++ blank) (sym (split_on-slash c (rstrip is_slash s) k))),
          h,
        )
        | inl m ↦
            (List.◌∷◌ "" blank, rw (k, m, e, empty_text (rstrip is_slash s) m) refl, (refl, h))
      ]
    ]
