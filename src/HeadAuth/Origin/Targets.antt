-- ===== src/HeadAuth/Origin/Targets.antt =====
-- Where a redirect after a login can lead.
use Prim.Native.String.{[], ◌∷◌}
use cozy_nm.Base.{
  String, ◌≡◌, sym, subst, Bool-cases, and-eq-true_iff, Bool, true, false, ◌&&◌, Option, none, some,
  arith, has_prefix, drop_while, is_empty, Result-cases, ok, inl, inr, ◌⊎◌,
}
use cozy_nm.HeadAuth.Origin.{
  SplitUrl, is_c0_or_space, remove_unsafe, split_scheme, authority, urlsplit, safe_next_url,
}

-- A target stays on the head: it is a path from the root, no "//" opens it, and as it is read by
-- `urlsplit`, with tabs and line breaks dropped, it names no scheme and no other host.
pub record StaysLocal (target : String) : Type 0 where
  pub rooted : has_prefix "/" target ≡ true
  pub not_double : has_prefix "//" target ≡ false
  pub no_scheme :
      is_empty (split_scheme (remove_unsafe (drop_while is_c0_or_space target))).0 ≡ true
  pub no_host :
      is_empty (authority (split_scheme (remove_unsafe (drop_while is_c0_or_space target))).1)
      ≡ true

urlsplit-ok :
    (checked : String → Bool) (url : String) (parsed : SplitUrl)
    → urlsplit checked url ≡ ok parsed
    → (parsed.scheme ≡ (split_scheme (remove_unsafe (drop_while is_c0_or_space url))).0)
      × (parsed.netloc ≡ authority (split_scheme (remove_unsafe (drop_while is_c0_or_space url))).1)
unfolding urlsplit
urlsplit-ok checked url parsed h = ground arith

accepted :
    (checked : String → Bool) (value default target : String)
    → safe_next_url checked (some value) default ≡ ok target
    → (target ≡ default)
      ⊎ ((parsed : SplitUrl) × (target ≡ value)
          × (has_prefix "/" value ≡ true)
          × (has_prefix "//" value ≡ false)
          × (urlsplit checked value ≡ ok parsed)
          × (is_empty parsed.scheme ≡ true)
          × (is_empty parsed.netloc ≡ true))
unfolding safe_next_url
accepted checked [] default target h = inl (ground arith)
accepted checked (c ∷ s) default target h =
    let value = c ∷ s in
    elim (Result-cases (urlsplit checked value)) [
      | inr (e, u) ↦ inl (ground arith)
      | inl (parsed, u) ↦ elim (Bool-cases (has_prefix "//" value)) [
        | inl two ↦ inl (ground arith)
        | inr one ↦ elim (Bool-cases (has_prefix "/" value)) [
          | inr bare ↦ inl (ground arith)
          | inl rooted ↦ elim (Bool-cases (is_empty parsed.scheme && is_empty parsed.netloc)) [
            | inr away ↦ inl (ground arith)
            | inl plain ↦ inr (
              parsed,
              ground arith,
              rooted,
              one,
              u,
              ((and-eq-true_iff _ _).0 plain).0,
              ((and-eq-true_iff _ _).0 plain).1,
            )
          ]
        ]
      ]
    ]

-- Whatever `next` a client sends, the target that `safe_next_url` returns is the default or stays
-- on the head.
pub safe_next_url-StaysLocal :
    (checked : String → Bool) (value : Option String) (default target : String)
    → safe_next_url checked value default ≡ ok target
    → (target ≡ default) ⊎ StaysLocal target
unfolding safe_next_url
safe_next_url-StaysLocal checked none default target h = inl (ground arith)
safe_next_url-StaysLocal checked (some value) default target h =
    elim (accepted checked value default target h) [
      | inl e ↦ inl e
      | inr (parsed, same, rooted, one, u, scheme, host) ↦
          let (its_scheme, its_host) = urlsplit-ok checked value parsed u in
          inr (
            subst StaysLocal (sym same) (record {
              rooted = rooted;
              not_double = one;
              no_scheme = rw (← its_scheme) scheme;
              no_host = rw (← its_host) host;
            }))
    ]
