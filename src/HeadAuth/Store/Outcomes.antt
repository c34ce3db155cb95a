-- ===== src/HeadAuth/Store/Outcomes.antt =====
-- The states that the operations write, and what their success says of the file before and after.
use cozy_nm.Base.{
  ℕ, ◌-◌, ◌≡◌, String, none, arith, [], ◌∷◌, ◌++◌, take_last, Result-cases, inl, inr, ok,
}
use cozy_nm.HeadAuth.State.{PasswordHash, AuthState, Platform, max_sessions, validate_password}
use cozy_nm.HeadAuth.Store.{
  AuthFile, contents, missing, Draw, read, hash_password, authenticate, active_sessions,
  new_session, locked, commit, write, setup, login, change_password, disable,
}

module _ {Doc : Type 0} (lib : Platform Doc) (session_days : ℕ) where
  -- the state after a login
  abbrev pub signed_in : Draw → AuthState → AuthState
  signed_in draw s = record s {
    sessions =
        take_last (max_sessions - 1) (active_sessions draw.checked s.sessions)
        ++ new_session lib session_days draw ∷ [];
  }

  -- the state after a new password
  abbrev pub renewed : Draw → PasswordHash → AuthState
  renewed draw hash = record { password = hash; sessions = new_session lib session_days draw ∷ [] }

  pub login-ok :
      (draw : Draw) (password token : String) (file file' : AuthFile Doc)
      → login lib session_days draw password file ≡ (ok token, file')
      → (s : AuthState) × (authenticate lib password file ≡ ok s)
        × (token ≡ draw.token)
        × (file' ≡ contents (lib.dump (signed_in draw s)))
  unfolding login locked write commit
  login-ok draw password token file file' h = elim (Result-cases (authenticate lib password file)) [
    | inl (s, e) ↦ (s, e, ground arith, ground arith)
    | inr (x, e) ↦ absurd (ground arith)
  ]

  pub setup-ok :
      (draw : Draw) (password token : String) (file file' : AuthFile Doc)
      → setup lib session_days draw password file ≡ (ok token, file')
      → (hash : PasswordHash) × (validate_password password ≡ ok tt)
        × (read lib file ≡ ok none)
        × (hash_password lib draw.salt password ≡ ok hash)
        × (token ≡ draw.token)
        × (file' ≡ contents (lib.dump (renewed draw hash)))
  unfolding setup locked write commit
  setup-ok draw password token file file' h =
      elim (Result-cases (hash_password lib draw.salt password)) [
        | inl (hash, e) ↦ (hash, ground arith, ground arith, e, ground arith, ground arith)
        | inr (x, e) ↦ absurd (ground arith)
      ]

  pub change_password-ok :
      (draw : Draw) (current new token : String) (file file' : AuthFile Doc)
      → change_password lib session_days draw current new file ≡ (ok token, file')
      → (s : AuthState) × (hash : PasswordHash) × (validate_password new ≡ ok tt)
        × (authenticate lib current file ≡ ok s)
        × (hash_password lib draw.salt new ≡ ok hash)
        × (token ≡ draw.token)
        × (file' ≡ contents (lib.dump (renewed draw hash)))
  unfolding change_password locked write commit
  change_password-ok draw current new token file file' h =
      elim (Result-cases (hash_password lib draw.salt new)) [
        | inl (hash, e) ↦ elim (Result-cases (authenticate lib current file)) [
          | inl (s, a) ↦ (s, hash, ground arith, a, e, ground arith, ground arith)
          | inr (x, a) ↦ absurd (ground arith)
        ]
        | inr (x, e) ↦ absurd (ground arith)
      ]

  pub disable-ok :
      (draw : Draw) (current : String) (file file' : AuthFile Doc)
      → disable lib draw current file ≡ (ok tt, file')
      → ((s : AuthState) × (authenticate lib current file ≡ ok s)) × (file' ≡ missing)
  unfolding disable locked commit
  disable-ok draw current file file' h = elim (Result-cases (authenticate lib current file)) [
    | inl (s, a) ↦ ((s, a), ground arith)
    | inr (x, a) ↦ absurd (ground arith)
  ]
