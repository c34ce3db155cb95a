-- ===== src/Hosts/Unread.antt =====
-- A file that is on the stack is not read again, so each inclusion leaves fewer files to read.
use cozy_nm.Base.{
  ◌≤◌, ◌<◌, ◌≡◌, refl, ap, subst, ◌∙◌, String, ◌==◌, eq_iff, eq_refl, true, false, not, Option,
  none, some, is_some, arith, List, [], ◌∷◌, any, select, length, ok, err, Result-cases, Bool-cases,
  inl, inr, and-eq-true_iff,
}
use cozy_nm.Hosts.Paths.{PosixPath, FileError, actual_path, follow_symlink}
use cozy_nm.Hosts.Lexical.{Inside-safe, follow_symlink-Inside}
use cozy_nm.Hosts.Files.{HostFiles, names_eq, in_stack, text_result, read_resolved}

names_eq_iff : (xs ys : List String) → names_eq xs ys ≡ true → xs ≡ ys
unfolding names_eq
names_eq_iff [] [] h = refl
names_eq_iff [] (y ∷ ys) h = absurd (cc)
names_eq_iff (x ∷ xs) [] h = absurd (cc)
names_eq_iff (x ∷ xs) (y ∷ ys) h =
    let (a, b) = (and-eq-true_iff (x == y) _).0 h in rw ((eq_iff x y).0 a, names_eq_iff xs ys b)

names_eq_refl : (xs : List String) → names_eq xs xs ≡ true
unfolding names_eq
names_eq_refl [] = refl
names_eq_refl (x ∷ xs) = rw (eq_refl x, names_eq_refl xs)

abbrev at_slash : List String → PosixPath
at_slash names = record { root = "/"; names = names }

-- the known files that are not on the stack
abbrev pub unread : List PosixPath → List (List String) → List (List String)
unread stack known = select (λ names. not (in_stack (at_slash names) stack)) known

length-unread-le :
    (r : PosixPath) (stack : List PosixPath) (known : List (List String))
    → length (unread (r ∷ stack) known) ≤ length (unread stack known)
length-unread-le r stack [] = omega arith
length-unread-le r stack (n ∷ ns) = ground (arith, length-unread-le r stack ns)

-- one more known file on the stack is one fewer unread
pub length-unread-lt :
    (r : PosixPath) (stack : List PosixPath) (known : List (List String))
    → r.root ≡ "/"
    → any (names_eq r.names) known ≡ true
    → in_stack r stack ≡ false
    → length (unread (r ∷ stack) known) < length (unread stack known)
length-unread-lt r stack [] s k e = absurd (cc)
length-unread-lt r stack (n ∷ ns) s k e = elim (Bool-cases (names_eq r.names n)) [
  | inl m ↦
      let same : r ≡ at_slash n =
        ap (λ root. record { root = root; names = r.names }) s
        ∙ ap at_slash (names_eq_iff r.names n m) in
      let absent : in_stack (at_slash n) stack ≡ false =
        subst (λ q. in_stack q stack ≡ false) same e in
      let a : ("/" == r.root) ≡ true = rw s refl in
      let b : names_eq n r.names ≡ true = rw (names_eq_iff r.names n m) (names_eq_refl n) in
      rw (a, b, absent) (omega (arith, length-unread-le r stack ns))
  | inr m ↦ let later = length-unread-lt r stack ns s (rw m at k) e in ground (arith, later)
]

text_result-ok : (t : Option String) (text : String) → text_result t ≡ ok text → is_some t ≡ true
text_result-ok none text h = absurd (cc)
text_result-ok (some t) text h = refl

-- what is read has a text, and is not on the stack
pub read_resolved-read :
    (dir : String) (files : HostFiles) (p : PosixPath) (stack : List PosixPath) (r : PosixPath)
    (text : String)
    → read_resolved dir files p stack ≡ ok (r, text)
    → (r.root ≡ "/") × (is_some (files.read_text r.names) ≡ true) × (in_stack r stack ≡ false)
unfolding read_resolved actual_path
read_resolved-read dir files p stack r text h =
    elim (Result-cases (follow_symlink dir files.link p)) [
      | inr (x, e) ↦ let bad : err x ≡ ok (r, text) = rw e at h in absurd (cc (bad))
      | inl (q, e) ↦
          let (inside, plain) = follow_symlink-Inside dir files.link p q e in
          let safe = Inside-safe dir q inside in
          elim (Bool-cases (in_stack q stack)) [
            | inl k ↦
                let bad : err FileError.recursive_include ≡ ok (r, text) = rw (e, k) at h in
                absurd (cc (bad))
            | inr k ↦ elim (Result-cases (text_result (files.read_text q.names))) [
              | inr (x, t) ↦
                  let bad : err x ≡ ok (r, text) = rw (e, k, safe, t) at h in absurd (cc (bad))
              | inl (u, t) ↦
                  let same : ok (q, u) ≡ ok (r, text) = rw (e, k, safe, t) at h in
                  let here : q ≡ r = cc (same) in
                  subst
                    (λ x.
                      (x.root ≡ "/")
                      × (is_some (files.read_text x.names) ≡ true)
                      × (in_stack x stack ≡ false))
                    here (inside.slash, text_result-ok (files.read_text q.names) u t, k)
            ]
          ]
    ]
