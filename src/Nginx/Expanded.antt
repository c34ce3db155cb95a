-- ===== src/Nginx/Expanded.antt =====
-- What `_NginxConfigReader` returns holds no include directive.
use cozy_nm.Base.{
  ℕ, zero, suc, ◌≡◌, refl, String, ◌==◌, Bool, true, false, not, ◌&&◌, none, some, List, [], ◌∷◌,
  Bool-cases, Result-cases, inl, inr, and-eq-true_iff,
}
use cozy_nm.Nginx.Tokens.{NginxError}
use cozy_nm.Nginx.Directives.{Directive, simple, block, Directives, no_directives, directive}
use cozy_nm.Hosts.Paths.{PosixPath, FileError}
use cozy_nm.Hosts.Files.{HostFiles, all_matches}
use cozy_nm.Nginx.Reader.{
  Collected, append_all, join_collected, with_children, read_all, expand_directive, expand, failed,
  expand_opened, open_file, read_file,
}

unfoldable mutual
  pub is_expanded : Directive → Bool
  is_expanded (simple name arguments) = not (name == "include")
  is_expanded (block name arguments children) = not (name == "include") && are_expanded children

  pub are_expanded : Directives → Bool
  are_expanded no_directives = true
  are_expanded (directive d ds) = is_expanded d && are_expanded ds

abbrev pub IsExpanded : Collected → Type 0
IsExpanded none = Unit
IsExpanded (some (ds, ws)) = are_expanded ds ≡ true

append_all-expanded :
    (ds es : Directives)
    → are_expanded ds ≡ true
    → are_expanded es ≡ true
    → are_expanded (append_all ds es) ≡ true
unfolding append_all is_expanded
append_all-expanded no_directives es h k = k
append_all-expanded (directive d ds) es h k =
    let (a, b) = (and-eq-true_iff (is_expanded d) _).0 h in rw (a, append_all-expanded ds es b k)

join_collected-IsExpanded :
    (a b : Collected) → IsExpanded a → IsExpanded b → IsExpanded (join_collected a b)
join_collected-IsExpanded none b h k = tt
join_collected-IsExpanded (some (ds, ws)) none h k = tt
join_collected-IsExpanded (some (ds, ws)) (some (es, vs)) h k = append_all-expanded ds es h k

with_children-IsExpanded :
    (name : String) (arguments : List String) (c : Collected)
    → (name == "include") ≡ false
    → IsExpanded c
    → IsExpanded (with_children name arguments c)
unfolding is_expanded
with_children-IsExpanded name arguments none e h = tt
with_children-IsExpanded name arguments (some (ds, ws)) e h = rw (e, h)

module _ (files : HostFiles) (read : PosixPath → Collected)
    (all_expanded : (p : PosixPath) → IsExpanded (read p)) where
  read_all-IsExpanded : (ps : List PosixPath) → IsExpanded (read_all files read ps)
  unfolding read_all is_expanded
  read_all-IsExpanded [] = refl
  read_all-IsExpanded (p ∷ ps) =
      join_collected-IsExpanded (read p) (read_all files read ps) (all_expanded p)
        (read_all-IsExpanded ps)

  mutual
    unfolding expand_directive is_expanded

    expand_directive-IsExpanded : (d : Directive) → IsExpanded (expand_directive files read d)
    expand_directive-IsExpanded (simple name arguments) = elim (Bool-cases (name == "include")) [
      | inl e ↦ rw e (read_all-IsExpanded (all_matches "nginx" files arguments))
      | inr e ↦ rw (e, e)
    ]
    expand_directive-IsExpanded (block name arguments ds) = elim (Bool-cases (name == "include")) [
      | inl e ↦ rw e (read_all-IsExpanded (all_matches "nginx" files arguments))
      | inr e ↦
          rw e (
            with_children-IsExpanded name arguments (expand files read ds) e (expand-IsExpanded ds))
    ]

    expand-IsExpanded : (ds : Directives) → IsExpanded (expand files read ds)
    expand-IsExpanded no_directives = refl
    expand-IsExpanded (directive d ds) =
        join_collected-IsExpanded (expand_directive files read d) (expand files read ds)
          (expand_directive-IsExpanded d) (expand-IsExpanded ds)

failed-IsExpanded :
    (files : HostFiles) (p : PosixPath) (e : NginxError) → IsExpanded (failed files p e)
unfolding is_expanded
failed-IsExpanded files p (NginxError.file_error FileError.external_path) = refl
failed-IsExpanded files p _ = refl

-- Whatever the files are, what a file and its includes are read as holds no include directive, in no
-- block either.
pub read_file-IsExpanded :
    (files : HostFiles) (f : ℕ) (stack : List PosixPath) (p : PosixPath)
    → IsExpanded (read_file files f stack p)
unfolding read_file expand_opened
read_file-IsExpanded files zero stack p = tt
read_file-IsExpanded files (suc f) stack p = elim (Result-cases (open_file files p stack)) [
  | inl ((resolved, ds), e) ↦ rw e (
      expand-IsExpanded files (read_file files f (resolved ∷ stack))
        (read_file-IsExpanded files f (resolved ∷ stack)) ds)
  | inr (x, e) ↦ rw e (failed-IsExpanded files p x)
]
