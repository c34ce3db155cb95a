-- ===== src/Nginx/Included.antt =====
-- Inclusion ends: with more fuel than readable files `_read_file` never runs out of it, since a file
-- on the stack is not read again.
use cozy_nm.Base.{
  ℕ, zero, suc, ◌<◌, ◌≡◌, refl, subst, String, ◌==◌, true, false, none, some, is_some, arith, List,
  [], ◌∷◌, any, length, ok, err, Result-cases, Bool-cases, inl, inr,
}
use cozy_nm.Nginx.Tokens.{NginxError, file_error}
use cozy_nm.Nginx.Directives.{
  Directive, simple, block, Directives, no_directives, directive, parse_text,
}
use cozy_nm.Hosts.Paths.{PosixPath, FileError}
use cozy_nm.Hosts.Files.{HostFiles, names_eq, in_stack, all_matches, read_resolved}
use cozy_nm.Hosts.Unread.{unread, length-unread-lt, read_resolved-read}
use cozy_nm.Nginx.Reader.{
  Collected, join_collected, with_children, read_all, expand_directive, expand, failed,
  expand_opened, open_file, read_file,
}

join_collected-is_some :
    (a b : Collected) → is_some a ≡ true → is_some b ≡ true → is_some (join_collected a b) ≡ true
join_collected-is_some none b h k = absurd (cc)
join_collected-is_some (some a) none h k = absurd (cc)
join_collected-is_some (some (ds, ws)) (some (es, vs)) h k = refl

with_children-is_some :
    (name : String) (arguments : List String) (c : Collected)
    → is_some c ≡ true
    → is_some (with_children name arguments c) ≡ true
with_children-is_some name arguments none h = absurd (cc)
with_children-is_some name arguments (some c) h = refl

module _ (files : HostFiles) (read : PosixPath → Collected)
    (all_read : (p : PosixPath) → is_some (read p) ≡ true) where
  read_all-is_some : (ps : List PosixPath) → is_some (read_all files read ps) ≡ true
  unfolding read_all
  read_all-is_some [] = refl
  read_all-is_some (p ∷ ps) =
      join_collected-is_some (read p) (read_all files read ps) (all_read p) (read_all-is_some ps)

  mutual
    unfolding expand_directive

    expand_directive-is_some : (d : Directive) → is_some (expand_directive files read d) ≡ true
    expand_directive-is_some (simple name arguments) = elim (Bool-cases (name == "include")) [
      | inl e ↦ rw e (read_all-is_some (all_matches "nginx" files arguments))
      | inr e ↦ rw e
    ]
    expand_directive-is_some (block name arguments ds) = elim (Bool-cases (name == "include")) [
      | inl e ↦ rw e (read_all-is_some (all_matches "nginx" files arguments))
      | inr e ↦
          rw e (with_children-is_some name arguments (expand files read ds) (expand-is_some ds))
    ]

    expand-is_some : (ds : Directives) → is_some (expand files read ds) ≡ true
    expand-is_some no_directives = refl
    expand-is_some (directive d ds) =
        join_collected-is_some (expand_directive files read d) (expand files read ds)
          (expand_directive-is_some d) (expand-is_some ds)

-- what is opened has a text, and is not on the stack
open_file-read :
    (files : HostFiles) (p : PosixPath) (stack : List PosixPath) (r : PosixPath) (ds : Directives)
    → open_file files p stack ≡ ok (r, ds)
    → (r.root ≡ "/") × (is_some (files.read_text r.names) ≡ true) × (in_stack r stack ≡ false)
unfolding open_file
open_file-read files p stack r ds h = elim (Result-cases (read_resolved "nginx" files p stack)) [
  | inr (x, e) ↦
      let bad : err (NginxError.file_error x) ≡ ok (r, ds) = rw e at h in absurd (cc (bad))
  | inl ((q, text), e) ↦ elim (Result-cases (parse_text text)) [
    | inr (x, d) ↦ let bad : err x ≡ ok (r, ds) = rw (e, d) at h in absurd (cc (bad))
    | inl (es, d) ↦
        let same : ok (q, es) ≡ ok (r, ds) = rw (e, d) at h in
        let here : q ≡ r = cc (same) in
        subst
          (λ x.
            (x.root ≡ "/")
            × (is_some (files.read_text x.names) ≡ true)
            × (in_stack x stack ≡ false))
          here (read_resolved-read "nginx" files p stack q text e)
  ]
]

failed-is_some :
    (files : HostFiles) (p : PosixPath) (e : NginxError) → is_some (failed files p e) ≡ true
failed-is_some files p (file_error FileError.external_path) = refl
failed-is_some files p _ = refl

-- Where every file with a text is among the known ones, reading ends with a result if there is more
-- fuel than known files that are not on the stack, however the files include each other.
pub read_file-is_some :
    (files : HostFiles) (known : List (List String))
    (complete : (names : List String)
      → is_some (files.read_text names) ≡ true
      → any (names_eq names) known ≡ true)
    (f : ℕ) (stack : List PosixPath) (p : PosixPath)
    → length (unread stack known) < f
    → is_some (read_file files f stack p) ≡ true
unfolding read_file expand_opened
read_file-is_some files known complete zero stack p h = absurd (omega arith)
read_file-is_some files known complete (suc f) stack p h =
    elim (Result-cases (open_file files p stack)) [
      | inr (x, e) ↦ rw e (failed-is_some files p x)
      | inl ((r, ds), e) ↦
          let (slash, text, new) = open_file-read files p stack r ds e in
          let fewer = length-unread-lt r stack known slash (complete r.names text) new in
          rw e (
            expand-is_some files (read_file files f (r ∷ stack))
              (λ q.
                read_file-is_some files known complete f (r ∷ stack) q (omega (arith, fewer, h)))
              ds)
    ]
