-- ===== src/Nginx/Contained.antt =====
-- The reader depends on nothing outside /etc/nginx: two hosts that agree below it are read alike.
use cozy_nm.Base.{ℕ, zero, suc, ◌≡◌, refl, List, [], ◌∷◌, Result-cases, inl, inr}
use cozy_nm.Nginx.Directives.{Directive, simple, block, Directives, no_directives, directive}
use cozy_nm.Hosts.Paths.{PosixPath}
use cozy_nm.Hosts.Files.{HostFiles, all_matches}
use cozy_nm.Hosts.Agreeing.{SameBelow, read_resolved-same, all_matches-same}
use cozy_nm.Nginx.Reader.{
  Collected, read_all, expand_directive, expand, expand_opened, open_file, read_file,
}

module _ (a b : HostFiles) (same : SameBelow "nginx" a b) where
  open_file-same :
      (p : PosixPath) (stack : List PosixPath) → open_file a p stack ≡ open_file b p stack
  unfolding open_file
  open_file-same p stack = rw (read_resolved-same "nginx" a b same p stack)

  module _ (r s : PosixPath → Collected) (same_read : (p : PosixPath) → r p ≡ s p) where
    read_all-same : (ps : List PosixPath) → read_all a r ps ≡ read_all b s ps
    unfolding read_all
    read_all-same [] = refl
    read_all-same (p ∷ ps) = rw (same_read p, read_all-same ps)

    mutual
      unfolding expand_directive

      expand_directive-same : (d : Directive) → expand_directive a r d ≡ expand_directive b s d
      expand_directive-same (simple name arguments) = rw (
        all_matches-same "nginx" a b same arguments,
        read_all-same (all_matches "nginx" b arguments),
      )
      expand_directive-same (block name arguments ds) = rw (
        all_matches-same "nginx" a b same arguments,
        read_all-same (all_matches "nginx" b arguments),
        expand-same ds,
      )

      expand-same : (ds : Directives) → expand a r ds ≡ expand b s ds
      expand-same no_directives = refl
      expand-same (directive d ds) = rw (expand_directive-same d, expand-same ds)

  -- Two hosts whose links, texts and matches below /etc/nginx are the same are read alike, whatever
  -- else there is on them and whatever the includes and links say.
  pub read_file-same :
      (f : ℕ) (stack : List PosixPath) (p : PosixPath)
      → read_file a f stack p ≡ read_file b f stack p
  unfolding read_file expand_opened
  read_file-same zero stack p = refl
  read_file-same (suc f) stack p = elim (Result-cases (open_file b p stack)) [
    | inr (x, e) ↦ rw (open_file-same p stack, e)
    | inl ((q, ds), e) ↦
        rw (open_file-same p stack, e)
          (expand-same (read_file a f (q ∷ stack)) (read_file b f (q ∷ stack))
            (read_file-same f (q ∷ stack)) ds)
  ]
