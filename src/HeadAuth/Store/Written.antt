-- ===== src/HeadAuth/Store/Written.antt =====
-- The states that the operations write are read back as they are.
use Prim.Native.String.{count}
use cozy_nm.Base.{
  ℕ, ◌-◌, ◌≡◌, String, true, not, ◌==◌, some, select, take_last, length, ltb, ok, All-append,
  All-drop, All-select,
}
use cozy_nm.HeadAuth.State.{
  PasswordHash, SessionHash, AuthState, Platform, IsSound, max_sessions, is_token_hash,
}
use cozy_nm.HeadAuth.Store.{
  AuthFile, contents, Draw, read, hash_password, authenticate, active_sessions, new_session,
}
use cozy_nm.HeadAuth.Store.Reading.{
  read-IsInstance, read-write, hash_password-validate_hash, authenticate-read,
}
use cozy_nm.HeadAuth.Store.Outcomes.{signed_in, renewed}

abbrev HasPattern : SessionHash → Type 0
HasPattern session = is_token_hash session.token_hash ≡ true

module _ {Doc : Type 0} (lib : Platform Doc) where
  -- the sessions that a logout keeps
  abbrev pub signed_out : Draw → String → AuthState → AuthState
  signed_out draw token s = record s {
    sessions =
        select (λ session. not (session.token_hash == lib.sha256_hex token))
          (active_sessions draw.checked s.sessions);
  }

module _ {Doc : Type 0} (lib : Platform Doc) (sound : IsSound lib) where
  new_session-HasPattern : (days : ℕ) (draw : Draw) → HasPattern (new_session lib days draw)
  unfolding new_session
  new_session-HasPattern days draw = sound.sha256_pattern draw.token

  pub read-signed_in :
      (days : ℕ) (draw : Draw) (password : String) (file : AuthFile Doc) (s : AuthState)
      → authenticate lib password file ≡ ok s
      → read lib (contents (lib.dump (signed_in lib days draw s)))
        ≡ ok (some (signed_in lib days draw s))
  unfolding active_sessions
  read-signed_in days draw password file s h =
      let (instance', hash) =
        read-IsInstance lib sound file s (authenticate-read lib file password s h).0 in
      let active = active_sessions draw.checked s.sessions in
      let kept =
        All-select HasPattern (λ session. ltb draw.checked session.expires_at) s.sessions
          instance' in
      read-write lib sound (signed_in lib days draw s)
        (All-append HasPattern (take_last (max_sessions - 1) active) _
          (All-drop HasPattern (length active - (max_sessions - 1)) active kept)
          (new_session-HasPattern days draw, tt))
        hash

  pub read-renewed :
      (days : ℕ) (draw : Draw) (password : String) (hash : PasswordHash)
      → count draw.salt ≡ 16
      → hash_password lib draw.salt password ≡ ok hash
      → read lib (contents (lib.dump (renewed lib days draw hash)))
        ≡ ok (some (renewed lib days draw hash))
  read-renewed days draw password hash c h =
      read-write lib sound (renewed lib days draw hash) (new_session-HasPattern days draw, tt)
        (hash_password-validate_hash lib sound draw.salt password hash c h)

  pub read-signed_out :
      (draw : Draw) (token : String) (file : AuthFile Doc) (s : AuthState)
      → read lib file ≡ ok (some s)
      → read lib (contents (lib.dump (signed_out lib draw token s)))
        ≡ ok (some (signed_out lib draw token s))
  unfolding active_sessions
  read-signed_out draw token file s h =
      let (instance', hash) = read-IsInstance lib sound file s h in
      read-write lib sound (signed_out lib draw token s)
        (All-select HasPattern _ (active_sessions draw.checked s.sessions)
          (All-select HasPattern _ s.sessions instance'))
        hash
