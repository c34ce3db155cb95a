-- ===== src/HeadAuth/Store/Sessions.antt =====
-- Which session tokens the store accepts after each operation.
use Prim.Native.String.{count}
use cozy_nm.Base.{
  ℕ, ◌+◌, ◌-◌, ◌≤◌, ◌<◌, ◌≡◌, refl, sym, ◌≢◌, String, ◌==◌, eq_iff, eq_refl, Bool, true, false, not,
  none, some, ap, arith, List, [], ◌∷◌, ◌++◌, any, select, take_last, lt→ltb, ok, err, is_empty,
  Result-cases, Bool-cases, inl, inr,
}
use cozy_nm.HeadAuth.State.{AuthError, SessionHash, AuthState, Platform, IsSound, max_sessions}
use cozy_nm.HeadAuth.Store.{
  AuthFile, contents, Draw, read, session_matches, session_valid, active_sessions, new_session,
  session_seconds, locked, commit, write, login, change_password, logout,
}
use cozy_nm.HeadAuth.Store.Outcomes.{signed_in, login-ok, change_password-ok}
use cozy_nm.HeadAuth.Store.Written.{signed_out, read-signed_in, read-renewed, read-signed_out}

any-concat :
    {A : Type 0} (p : A → Bool) (xs : List A) (x : A) → p x ≡ true → any p (xs ++ x ∷ []) ≡ true
any-concat p [] x h = rw h
any-concat p (y ∷ xs) x h = ground (arith, any-concat p xs x h)

module _ {Doc : Type 0} (lib : Platform Doc) where
  -- what `session_valid` answers, once the file is read
  pub session_valid-read :
      (token : String) (now : ℕ) (file : AuthFile Doc) (s : AuthState)
      → is_empty token ≡ false
      → read lib file ≡ ok (some s)
      → session_valid lib (some token) now file
        ≡ ok (any (session_matches lib token now) s.sessions)
  unfolding session_valid
  session_valid-read token now file s e h = rw (e, h)

  new_session_matches :
      (days now : ℕ) (draw : Draw)
      → now < draw.created + session_seconds days
      → session_matches lib draw.token now (new_session lib days draw) ≡ true
  unfolding session_matches new_session
  new_session_matches days now draw h =
      rw (lt→ltb now (draw.created + session_seconds days) h) (eq_refl (lib.sha256_hex draw.token))

  logout-empty :
      (draw : Draw) (token : String) (file file' : AuthFile Doc)
      → logout lib draw (some token) file ≡ (ok tt, file')
      → is_empty token ≡ true
      → file' ≡ file
  unfolding logout
  logout-empty draw token file file' h e = ground arith

  session_valid-empty :
      (token : String) (now : ℕ) (file : AuthFile Doc)
      → is_empty token ≡ true
      → session_valid lib (some token) now file ≡ ok false
  unfolding session_valid
  session_valid-empty token now file e = rw e

  logout-none :
      (draw : Draw) (token : String) (file file' : AuthFile Doc)
      → logout lib draw (some token) file ≡ (ok tt, file')
      → read lib file ≡ ok none
      → is_empty token ≡ false
      → file' ≡ file
  unfolding logout locked
  logout-none draw token file file' h r e = ground arith

  logout-some :
      (draw : Draw) (token : String) (file file' : AuthFile Doc) (s : AuthState)
      → logout lib draw (some token) file ≡ (ok tt, file')
      → read lib file ≡ ok (some s)
      → is_empty token ≡ false
      → file' ≡ contents (lib.dump (signed_out lib draw token s))
  unfolding logout locked write commit
  logout-some draw token file file' s h r e = ground arith

  logout-err :
      (draw : Draw) (token : String) (file file' : AuthFile Doc) (x : AuthError)
      → logout lib draw (some token) file ≡ (ok tt, file')
      → read lib file ≡ err x
      → is_empty token ≡ false
      → ⊥
  unfolding logout locked
  logout-err draw token file file' x h r e = ground arith

  -- no session of the token is left
  any-select_out :
      (token : String) (now : ℕ) (l : List SessionHash)
      → any
          (session_matches lib token now)
          (select (λ session. not (session.token_hash == lib.sha256_hex token)) l)
        ≡ false
  unfolding session_matches
  any-select_out token now [] = refl
  any-select_out token now (x ∷ l) = ground (arith, any-select_out token now l)

  -- sessions of other tokens that have not expired are left
  any-select_other :
      (token other : String) (checked now : ℕ) (l : List SessionHash)
      → lib.sha256_hex other ≢ lib.sha256_hex token
      → checked ≤ now
      → any (session_matches lib other now) (
          select
            (λ session. not (session.token_hash == lib.sha256_hex token))
            (active_sessions checked l))
        ≡ any (session_matches lib other now) l
  unfolding session_matches active_sessions
  any-select_other token other checked now [] d le = refl
  any-select_other token other checked now (x ∷ l) d le = ground (
    arith,
    any-select_other token other checked now l,
    eq_iff x.token_hash (lib.sha256_hex token),
    eq_iff x.token_hash (lib.sha256_hex other),
  )

module _ {Doc : Type 0} (lib : Platform Doc) (sound : IsSound lib) where
  -- The token that a login returns is accepted until the session's lifetime is over.
  pub login-session_valid :
      (days now : ℕ) (draw : Draw) (password token : String) (file file' : AuthFile Doc)
      → login lib days draw password file ≡ (ok token, file')
      → is_empty token ≡ false
      → now < draw.created + session_seconds days
      → session_valid lib (some token) now file' ≡ ok true
  login-session_valid days now draw password token file file' h e lt =
      let (s, found, same, written) = login-ok lib days draw password token file file' h in
      let new = signed_in lib days draw s in
      let kept = take_last (max_sessions - 1) (active_sessions draw.checked s.sessions) in
      rw
        (
          written,
          session_valid-read lib token now (contents (lib.dump new)) new e
              (read-signed_in lib sound days draw password file s found),
          same,
        )
        (ap ok (
          any-concat (session_matches lib draw.token now) kept (new_session lib days draw)
            (new_session_matches lib days now draw lt)))

  -- After a change of the password a token is accepted only if it has the hash of the new token.
  pub change_password-session_valid :
      (days now : ℕ) (draw : Draw) (current new token other : String) (file file' : AuthFile Doc)
      → count draw.salt ≡ 16
      → change_password lib days draw current new file ≡ (ok token, file')
      → session_valid lib (some other) now file' ≡ ok true
      → lib.sha256_hex other ≡ lib.sha256_hex token
  unfolding session_valid session_matches new_session
  change_password-session_valid days now draw current new token other file file' c h v =
      let (s, hash, rule, found, hashed, same, written) =
        change_password-ok lib days draw current new token file file' h in
      ground (
        arith,
        read-renewed lib sound days draw new hash c hashed,
        eq_iff (lib.sha256_hex token) (lib.sha256_hex other),
      )

  -- A logged-out token is refused at any time.
  pub logout-session_valid :
      (now : ℕ) (draw : Draw) (token : String) (file file' : AuthFile Doc)
      → logout lib draw (some token) file ≡ (ok tt, file')
      → session_valid lib (some token) now file' ≡ ok false
  logout-session_valid now draw token file file' h = elim (Bool-cases (is_empty token)) [
    | inl e ↦ session_valid-empty lib token now file' e
    | inr e ↦ elim (Result-cases (read lib file)) [
      | inr (x, r) ↦ absurd (logout-err lib draw token file file' x h r e)
      | inl (none, r) ↦
          rw (logout-none lib draw token file file' h r e) (unfold session_valid in rw (e, r))
      | inl (some s, r) ↦
          let out = signed_out lib draw token s in
          rw (
            logout-some lib draw token file file' s h r e,
            session_valid-read lib token now (contents (lib.dump out)) out e
                (read-signed_out lib sound draw token file s r),
            any-select_out lib token now (active_sessions draw.checked s.sessions),
          )
    ]
  ]

  -- A logout leaves the answer for every token with another hash as it was, from the time of the
  -- logout on.
  pub logout-session_valid_other :
      (now : ℕ) (draw : Draw) (token other : String) (file file' : AuthFile Doc)
      → logout lib draw (some token) file ≡ (ok tt, file')
      → lib.sha256_hex other ≢ lib.sha256_hex token
      → draw.checked ≤ now
      → session_valid lib (some other) now file' ≡ session_valid lib (some other) now file
  logout-session_valid_other now draw token other file file' h d le =
      elim (Bool-cases (is_empty other)) [
        | inl o ↦
            rw (session_valid-empty lib other now file' o)
              (sym (session_valid-empty lib other now file o))
        | inr o ↦ elim (Bool-cases (is_empty token)) [
          | inl e ↦ rw (logout-empty lib draw token file file' h e)
          | inr e ↦ elim (Result-cases (read lib file)) [
            | inr (x, r) ↦ absurd (logout-err lib draw token file file' x h r e)
            | inl (none, r) ↦ rw (logout-none lib draw token file file' h r e)
            | inl (some s, r) ↦
                let out = signed_out lib draw token s in
                rw (
                  logout-some lib draw token file file' s h r e,
                  session_valid-read lib other now (contents (lib.dump out)) out o
                      (read-signed_out lib sound draw token file s r),
                  session_valid-read lib other now file s o r,
                  any-select_other lib token other draw.checked now s.sessions d le,
                )
          ]
        ]
      ]
