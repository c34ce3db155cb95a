-- ===== src/Hosts/Lexical.antt =====
-- What `_safe_virtual_path` and `_follow_symlink` let through.
use cozy_nm.Base.{
  ℕ, zero, suc, ◌≡◌, sym, subst, String, ◌==◌, eq_iff, true, false, ◌||◌, Option, none, arith,
  is_empty, List, [], ◌∷◌, ◌++◌, All, All-append, ok, err, Result-cases, Option-cases, Bool-cases,
  inl, inr, and-eq-true_iff,
}
use mathlib.Core.List.{append_assoc, append-nil}
use cozy_nm.Hosts.Paths.{
  FileError, PosixPath, parts, drop_last, keep_part, keep_parts, at_root, below, in_root,
  safe_virtual_path, actual_path, follow, follow_symlink, target_path,
}

-- a part that stays
abbrev pub IsPlain : String → Type 0
IsPlain part =
    (is_empty part ≡ false)
    × ((part == "/") ≡ false)
    × ((part == ".") ≡ false)
    × ((part == "..") ≡ false)

-- below the directory in /etc, by plain names
pub record Inside (dir : String) (p : PosixPath) : Type 0 where
  pub slash : p.root ≡ "/"
  pub below : below dir p.names ≡ true
  pub plain : All IsPlain p.names

drop_last-IsPlain : (xs : List String) → All IsPlain xs → All IsPlain (drop_last xs)
unfolding drop_last
drop_last-IsPlain [] h = h
drop_last-IsPlain (x ∷ []) h = tt
drop_last-IsPlain (x ∷ (y ∷ xs)) (a, h) = (a, drop_last-IsPlain (y ∷ xs) h)

keep_part-IsPlain :
    (part : String) (kept : List String) → All IsPlain kept → All IsPlain (keep_part part kept)
unfolding keep_part
keep_part-IsPlain part kept h = elim (Bool-cases (is_empty part || part == "/" || part == ".")) [
  | inl e ↦ rw e h
  | inr e ↦ elim (Bool-cases (part == "..")) [
    | inl k ↦ rw (e, k) (drop_last-IsPlain kept h)
    | inr k ↦
        rw (e, k)
          (All-append IsPlain kept (part ∷ []) h
            ((ground arith, ground arith, ground arith, k), tt))
  ]
]

pub keep_parts-IsPlain :
    (ps kept : List String) → All IsPlain kept → All IsPlain (keep_parts ps kept)
unfolding keep_parts
keep_parts-IsPlain [] kept h = h
keep_parts-IsPlain (p ∷ ps) kept h =
    keep_parts-IsPlain ps (keep_part p kept) (keep_part-IsPlain p kept h)

at_root-IsPlain : (ps : List String) → All IsPlain ps → All IsPlain (at_root ps).names
unfolding at_root
at_root-IsPlain [] h = h
at_root-IsPlain (p ∷ ps) (a, h) = elim (Bool-cases (p == "//")) [
  | inl e ↦ rw e h
  | inr e ↦ rw e (a, h)
]

-- plain parts are kept as they are
pub keep_parts-id : (ps kept : List String) → All IsPlain ps → keep_parts ps kept ≡ kept ++ ps
unfolding keep_parts keep_part
keep_parts-id [] kept h = sym (append-nil kept)
keep_parts-id (p ∷ ps) kept ((a, b, c, d), h) =
    rw (a, b, c, d, keep_parts-id ps (kept ++ p ∷ []) h, append_assoc kept (p ∷ []) ps)

module _ (dir : String) where
  safe_virtual_path-Inside : (p r : PosixPath) → safe_virtual_path dir p ≡ ok r → Inside dir r
  unfolding safe_virtual_path in_root
  safe_virtual_path-Inside p r h =
      let q = at_root (keep_parts (parts p) []) in
      elim (Bool-cases (in_root dir q)) [
        | inr e ↦ let bad : err FileError.external_path ≡ ok r = rw e at h in absurd (cc (bad))
        | inl e ↦
            let same : ok q ≡ ok r = rw e at h in
            let (s, b) = (and-eq-true_iff (q.root == "/") (below dir q.names)).0 e in
            let i : Inside dir q = record {
              slash = (eq_iff q.root "/").0 s;
              below = b;
              plain = at_root-IsPlain _ (keep_parts-IsPlain (parts p) [] tt);
            } in
            subst (Inside dir) (cc (same)) i
      ]

  at_root-below :
      (ns : List String) → below dir ns ≡ true → at_root ns ≡ record { root = "/"; names = ns }
  unfolding at_root
  at_root-below [] h = absurd (cc)
  at_root-below (a ∷ []) h = absurd (cc)
  at_root-below (a ∷ (b ∷ ns)) h =
      let (e, k) = (and-eq-true_iff (a == "etc") (b == dir)).0 h in rw ((eq_iff a "etc").0 e)

  pub Inside-safe : (p : PosixPath) → Inside dir p → safe_virtual_path dir p ≡ ok p
  unfolding safe_virtual_path in_root parts
  Inside-safe p i =
      let k : keep_parts ("/" ∷ p.names) [] ≡ p.names =
        unfold keep_parts keep_part in keep_parts-id p.names [] i.plain in
      rw (i.slash, k, at_root-below p.names i.below, i.below)

  -- Whatever a path says, the path that is let through lies below the directory, is made of plain names,
  -- and is let through as it is when it is looked at again.
  pub safe_virtual_path-stays :
      (p r : PosixPath)
      → safe_virtual_path dir p ≡ ok r
      → Inside dir r × (safe_virtual_path dir r ≡ ok r)
  safe_virtual_path-stays p r h = let i = safe_virtual_path-Inside p r h in (i, Inside-safe r i)

  module _ (link : List String → Option String) where
    follow-Inside :
        (rounds : ℕ) (p r : PosixPath)
        → Inside dir p
        → follow dir link rounds p ≡ ok r
        → Inside dir r × (link r.names ≡ none)
    unfolding follow actual_path
    follow-Inside zero p r i h = absurd (cc)
    follow-Inside (suc n) p r i h =
        let safe = Inside-safe p i in
        elim (Option-cases (link p.names)) [
          | inl e ↦
              let same : ok p ≡ ok r = rw (safe, e) at h in
              let q : p ≡ r = cc (same) in
              subst (λ x. Inside dir x × (link x.names ≡ none)) q (i, e)
          | inr (target, e) ↦
              elim (Result-cases (safe_virtual_path dir (target_path dir link p target))) [
                | inl (q, k) ↦
                    follow-Inside n q r (safe_virtual_path-Inside _ q k) (rw (safe, e, k) at h)
                | inr (x, k) ↦ let bad : err x ≡ ok r = rw (safe, e, k) at h in absurd (cc (bad))
              ]
        ]

    -- A path that is followed to its end lies below the directory, by plain names, and is no symbolic link
    -- there.
    pub follow_symlink-Inside :
        (p r : PosixPath) → follow_symlink dir link p ≡ ok r → Inside dir r × (link r.names ≡ none)
    unfolding follow_symlink
    follow_symlink-Inside p r h = elim (Result-cases (safe_virtual_path dir p)) [
      | inl (q, k) ↦ follow-Inside 20 q r (safe_virtual_path-Inside p q k) (rw k at h)
      | inr (x, k) ↦ let bad : err x ≡ ok r = rw k at h in absurd (cc (bad))
    ]
