-- ===== src/HeadAuth/Store/Histories.antt =====
-- What holds of the file after any history of calls.
use Prim.Native.String.{count}
use cozy_nm.Base.{
  ℕ, ◌-◌, ◌≤◌, ◌≡◌, refl, sym, subst, Bool-cases, String, not, ◌==◌, some, none, Option, arith, ok,
  Result-cases, inl, inr, is_empty, ◌⊎◌, length, length-append, length-drop, length-select-le,
  take_last, ltb, [], ◌∷◌,
}
use cozy_nm.HeadAuth.State.{
  PasswordHash, SessionHash, AuthState, Platform, IsSound, validate_password, max_sessions,
}
use cozy_nm.HeadAuth.Store.{
  AuthFile, contents, missing, Draw, Fault, read, hash_password, authenticate, setup, login,
  change_password, disable, logout, locked, write, commit, active_sessions, new_session,
}
use cozy_nm.HeadAuth.Store.Outcomes.{signed_in, renewed}
use cozy_nm.HeadAuth.Store.Written.{signed_out, read-signed_in, read-renewed, read-signed_out}
use cozy_nm.HeadAuth.Store.Atomic.{
  Call, setup_call, login_call, change_call, disable_call, logout_call, run,
}

-- What one call may leave at the path.
data Left {Doc : Type 0} (lib : Platform Doc) (days : ℕ) (draw : Draw) (file file' : AuthFile Doc)
    : Type 0 where
  kept : file' ≡ file → Left lib days draw file file'
  removed : file' ≡ missing → Left lib days draw file file'
  signed :
      (password : String) (s : AuthState)
      → authenticate lib password file ≡ ok s
      → file' ≡ contents (lib.dump (signed_in lib days draw s))
      → Left lib days draw file file'
  renew :
      (password : String) (hash : PasswordHash)
      → hash_password lib draw.salt password ≡ ok hash
      → file' ≡ contents (lib.dump (renewed lib days draw hash))
      → Left lib days draw file file'
  out :
      (token : String) (s : AuthState)
      → read lib file ≡ ok (some s)
      → file' ≡ contents (lib.dump (signed_out lib draw token s))
      → Left lib days draw file file'

module _ {Doc : Type 0} (lib : Platform Doc) (days : ℕ) (draw : Draw) (file : AuthFile Doc) where
  commit-cases :
      (fault : Fault) (new : AuthFile Doc)
      → ((commit fault new file).1 ≡ file) ⊎ ((commit fault new file).1 ≡ new)
  unfolding commit
  commit-cases fault new = ground arith

  Left-by_login :
      (password : String) → Left lib days draw file (login lib days draw password file).1
  unfolding login locked write commit
  Left-by_login password = elim (Result-cases (authenticate lib password file)) [
    | inr (e, h) ↦ kept (ground arith)
    | inl (s, h) ↦
        elim (commit-cases draw.fault (contents (lib.dump (signed_in lib days draw s)))) [
          | inl old ↦ kept (ground arith)
          | inr new ↦ signed password s h (ground arith)
        ]
  ]

  Left-by_setup :
      (password : String) → Left lib days draw file (setup lib days draw password file).1
  unfolding setup locked write commit
  Left-by_setup password = elim (Result-cases (read lib file)) [
    | inr (e, h) ↦ kept (ground arith)
    | inl (some s, h) ↦ kept (ground arith)
    | inl (none, h) ↦ elim (Result-cases (validate_password password)) [
      | inr (e, v) ↦ kept (ground arith)
      | inl (u, v) ↦ elim (Result-cases (hash_password lib draw.salt password)) [
        | inr (e, p) ↦ kept (ground arith)
        | inl (hash, p) ↦
            elim (commit-cases draw.fault (contents (lib.dump (renewed lib days draw hash)))) [
              | inl old ↦ kept (ground arith)
              | inr new ↦ renew password hash p (ground arith)
            ]
      ]
    ]
  ]

  Left-by_change :
      (current new : String)
      → Left lib days draw file (change_password lib days draw current new file).1
  unfolding change_password locked write commit
  Left-by_change current password = elim (Result-cases (authenticate lib current file)) [
    | inr (e, h) ↦ kept (ground arith)
    | inl (s, h) ↦ elim (Result-cases (validate_password password)) [
      | inr (e, v) ↦ kept (ground arith)
      | inl (u, v) ↦ elim (Result-cases (hash_password lib draw.salt password)) [
        | inr (e, p) ↦ kept (ground arith)
        | inl (hash, p) ↦
            elim (commit-cases draw.fault (contents (lib.dump (renewed lib days draw hash)))) [
              | inl old ↦ kept (ground arith)
              | inr new ↦ renew password hash p (ground arith)
            ]
      ]
    ]
  ]

  Left-by_disable : (current : String) → Left lib days draw file (disable lib draw current file).1
  unfolding disable locked commit
  Left-by_disable current = elim (commit-cases draw.fault missing) [
    | inl old ↦ elim (Result-cases (authenticate lib current file)) [
      | inr (e, h) ↦ kept (ground arith)
      | inl (s, h) ↦ kept (ground arith)
    ]
    | inr new ↦ elim (Result-cases (authenticate lib current file)) [
      | inr (e, h) ↦ kept (ground arith)
      | inl (s, h) ↦ removed (ground arith)
    ]
  ]

  Left-by_logout : (token : Option String) → Left lib days draw file (logout lib draw token file).1
  unfolding logout locked write commit
  Left-by_logout none = kept refl
  Left-by_logout (some token) = elim (Result-cases (read lib file)) [
    | inr (e, h) ↦ kept (ground arith)
    | inl (none, h) ↦ kept (ground arith)
    | inl (some s, h) ↦ elim (Bool-cases (is_empty token)) [
      | inl e ↦ kept (ground arith)
      | inr e ↦ elim (commit-cases draw.fault (contents (lib.dump (signed_out lib draw token s)))) [
        | inl old ↦ kept (ground arith)
        | inr new ↦ out token s h (ground arith)
      ]
    ]
  ]

  Left-by_run : (call : Call) → Left lib days draw file (run lib days draw call file).1
  unfolding run
  Left-by_run (setup_call p) = subst (Left lib days draw file) (ground arith) (Left-by_setup p)
  Left-by_run (login_call p) = subst (Left lib days draw file) (ground arith) (Left-by_login p)
  Left-by_run (change_call c p) =
      subst (Left lib days draw file) (ground arith) (Left-by_change c p)
  Left-by_run (disable_call c) = subst (Left lib days draw file) (ground arith) (Left-by_disable c)
  Left-by_run (logout_call t) = subst (Left lib days draw file) (ground arith) (Left-by_logout t)

-- The file can be read, and holds at most `max_sessions` sessions.
pub data IsHealthy {Doc : Type 0} (lib : Platform Doc) (file : AuthFile Doc) : Type 0 where
  unset : read lib file ≡ ok none → IsHealthy lib file
  set_up :
      (s : AuthState)
      → read lib file ≡ ok (some s)
      → length s.sessions ≤ max_sessions
      → IsHealthy lib file

length-signed_in :
    {Doc : Type 0} (lib : Platform Doc) (days : ℕ) (draw : Draw) (s : AuthState)
    → length (signed_in lib days draw s).sessions ≤ max_sessions
length-signed_in lib days draw s = omega (
  arith,
  length-append {0} (take_last (max_sessions - 1) (active_sessions draw.checked s.sessions))
      (new_session lib days draw ∷ []),
  length-drop {0} (length (active_sessions draw.checked s.sessions) - (max_sessions - 1))
      (active_sessions draw.checked s.sessions),
)

length-signed_out :
    {Doc : Type 0} (lib : Platform Doc) (draw : Draw) (token : String) (s : AuthState)
    → length (signed_out lib draw token s).sessions ≤ length s.sessions
unfolding active_sessions
length-signed_out lib draw token s = omega (
  arith,
  length-select-le {0} (λ session. not (session.token_hash == lib.sha256_hex token))
      (active_sessions draw.checked s.sessions),
  length-select-le {0} (λ (session : SessionHash). ltb draw.checked session.expires_at) s.sessions,
)

IsHealthy-of_eq :
    {Doc : Type 0} (lib : Platform Doc) (file file' : AuthFile Doc)
    → file' ≡ file
    → IsHealthy lib file
    → IsHealthy lib file'
IsHealthy-of_eq lib file file' e h = subst (IsHealthy lib) (sym e) h

length_of_read :
    {Doc : Type 0} (lib : Platform Doc) (file : AuthFile Doc) (s : AuthState)
    → IsHealthy lib file
    → read lib file ≡ ok (some s)
    → length s.sessions ≤ max_sessions
length_of_read lib file s (unset h) r = absurd (cc)
length_of_read lib file s (set_up t h le) r =
    let e : t ≡ s = cc in subst (λ x. length x.sessions ≤ max_sessions) e le

module _ {Doc : Type 0} (lib : Platform Doc) (sound : IsSound lib) (days : ℕ) where
  Left-IsHealthy :
      (draw : Draw) (file file' : AuthFile Doc)
      → count draw.salt ≡ 16
      → Left lib days draw file file'
      → IsHealthy lib file
      → IsHealthy lib file'
  unfolding read
  Left-IsHealthy draw file file' c (kept e) h = IsHealthy-of_eq lib file file' e h
  Left-IsHealthy draw file file' c (removed e) h = IsHealthy-of_eq lib missing file' e (unset refl)
  Left-IsHealthy draw file file' c (signed p s a e) h = IsHealthy-of_eq lib _ file' e (
      set_up (signed_in lib days draw s) (read-signed_in lib sound days draw p file s a)
        (length-signed_in lib days draw s))
  Left-IsHealthy draw file file' c (renew p hash a e) h = IsHealthy-of_eq lib _ file' e (
      set_up (renewed lib days draw hash) (read-renewed lib sound days draw p hash c a)
        (omega arith))
  Left-IsHealthy draw file file' c (out token s r e) h = IsHealthy-of_eq lib _ file' e (
      set_up (signed_out lib draw token s) (read-signed_out lib sound draw token file s r)
        (omega (arith, length-signed_out lib draw token s, length_of_read lib file s h r)))

  -- A history of calls, each with what it drew: 16 bytes of salt, any randomness, clock and fault.
  pub data History (first : AuthFile Doc) : AuthFile Doc → Type 0 where
    start : History first first
    then_run :
        {file : AuthFile Doc}
        → History first file
        → (draw : Draw) (call : Call) → count draw.salt ≡ 16
        → History first (run lib days draw call file).1

  -- Whatever the calls, and wherever the operating system failed in them, the file can be read
  -- afterwards and holds at most 32 sessions, if that was so before.
  pub History-IsHealthy :
      {first last : AuthFile Doc} → IsHealthy lib first → History first last → IsHealthy lib last
  History-IsHealthy h start = h
  History-IsHealthy h (then_run {file} history draw call c) =
      Left-IsHealthy draw file _ c (Left-by_run lib days draw file call)
        (History-IsHealthy h history)
