-- ===== src/Hosts/Agreeing.antt =====
-- Two hosts that agree below a directory in /etc are the same to a reader that may look there.
use cozy_nm.Base.{
  ℕ, zero, suc, ◌≡◌, refl, String, true, Option-cases, List, [], ◌∷◌, Result-cases, inl, inr,
}
use cozy_nm.Hosts.Paths.{
  PosixPath, below, safe_virtual_path, actual_path, follow, follow_symlink, target_path,
}
use cozy_nm.Hosts.Lexical.{Inside, Inside-safe, safe_virtual_path-stays, follow_symlink-Inside}
use cozy_nm.Hosts.Files.{HostFiles, virtual_pattern, include_matches, all_matches, read_resolved}

-- the same links, texts and matches below the directory
pub record SameBelow (dir : String) (a b : HostFiles) : Type 0 where
  pub same_link : (ns : List String) → below dir ns ≡ true → a.link ns ≡ b.link ns
  pub same_text : (ns : List String) → below dir ns ≡ true → a.read_text ns ≡ b.read_text ns
  pub same_glob : (ns : List String) → below dir ns ≡ true → a.glob ns ≡ b.glob ns

module _ (dir : String) (a b : HostFiles) (same : SameBelow dir a b) where
  follow-same :
      (rounds : ℕ) (p : PosixPath)
      → Inside dir p
      → follow dir a.link rounds p ≡ follow dir b.link rounds p
  unfolding follow actual_path
  follow-same zero p i = refl
  follow-same (suc n) p i =
      let safe = Inside-safe dir p i in
      let l = same.same_link p.names i.below in
      elim (Option-cases (b.link p.names)) [
        | inl e ↦ rw (safe, l, e)
        | inr (t, e) ↦ elim (Result-cases (safe_virtual_path dir (target_path dir a.link p t))) [
          | inr (x, k) ↦ rw (safe, l, e, k)
          | inl (q, k) ↦
              let (j, again) = safe_virtual_path-stays dir _ q k in
              rw (safe, l, e, k) (follow-same n q j)
        ]
      ]

  follow_symlink-same : (p : PosixPath) → follow_symlink dir a.link p ≡ follow_symlink dir b.link p
  unfolding follow_symlink
  follow_symlink-same p = elim (Result-cases (safe_virtual_path dir p)) [
    | inr (x, k) ↦ rw k
    | inl (q, k) ↦ let (j, again) = safe_virtual_path-stays dir p q k in rw k (follow-same 20 q j)
  ]

  pub read_resolved-same :
      (p : PosixPath) (stack : List PosixPath)
      → read_resolved dir a p stack ≡ read_resolved dir b p stack
  unfolding read_resolved actual_path
  read_resolved-same p stack = elim (Result-cases (follow_symlink dir b.link p)) [
    | inr (x, e) ↦ rw (follow_symlink-same p, e)
    | inl (q, e) ↦
        let (i, k) = follow_symlink-Inside dir b.link p q e in
        rw (follow_symlink-same p, e, Inside-safe dir q i, same.same_text q.names i.below)
  ]

  include_matches-same :
      (pattern : String) → include_matches dir a pattern ≡ include_matches dir b pattern
  unfolding include_matches actual_path
  include_matches-same pattern =
      elim (Result-cases (safe_virtual_path dir (virtual_pattern dir pattern))) [
        | inr (x, e) ↦ rw e
        | inl (q, e) ↦
            let (i, again) = safe_virtual_path-stays dir (virtual_pattern dir pattern) q e in
            rw (e, same.same_glob q.names i.below)
      ]

  pub all_matches-same : (ps : List String) → all_matches dir a ps ≡ all_matches dir b ps
  unfolding all_matches
  all_matches-same [] = refl
  all_matches-same (p ∷ ps) = rw (include_matches-same p, all_matches-same ps)
