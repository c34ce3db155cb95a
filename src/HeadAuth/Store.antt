-- ===== src/HeadAuth/Store.antt =====
-- services/head_auth.py: `HeadAuthStore`, over the file at its path. An operation runs under the
-- exclusive lock as one step; what it draws from outside (randomness, clock readings, the point
-- at which the operating system fails) is its argument `draw`.
pub mod Reading
pub mod Outcomes
pub mod Written
pub mod Histories
pub mod Atomic
pub mod Passwords
pub mod Sessions
use Prim.Native.String.{count}
use cozy_nm.Base.{
  ℕ, ◌+◌, ◌*◌, ◌-◌, String, ◌==◌, Bool, false, not, ◌&&◌, Option, none, some, List, [], ◌∷◌, ◌++◌,
  nat_eq, ltb, if◌then◌else◌, is_empty, is_some, any, select, take_last, Result, ok, err, Exec,
  pure, raise, lift, reads, ◌>>=◌, ◌>>◌, bind_result,
}
use cozy_nm.HeadAuth.State.{
  AuthError, PasswordHash, SessionHash, AuthState, Platform, validate_password, scrypt_n, scrypt_r,
  scrypt_p, scrypt_dklen, max_password_length, max_sessions,
}

-- What stands at the path: nothing, something that cannot be read as text, or a text.
pub data AuthFile (Doc : Type 0) : Type 0 where
  missing : AuthFile Doc
  unreadable : AuthFile Doc
  contents : Doc → AuthFile Doc

-- Where the operating system fails during an operation: nowhere, before the lock is held, before
-- the file is replaced or unlinked, or after that (the sync of the directory).
pub data Fault : Type 0 where
  no_fault at_lock before_commit after_commit : Fault

-- `created` and `checked` are the clock when a session is made and when expiry is checked.
pub record Draw : Type 0 where
  pub token : String
  pub salt : String
  pub created : ℕ
  pub checked : ℕ
  pub fault : Fault

-- `session_seconds` of the constructor
unfoldable pub session_seconds : ℕ → ℕ
session_seconds session_days = session_days * 24 * 60 * 60

-- `_active_sessions`
unfoldable pub active_sessions : ℕ → List SessionHash → List SessionHash
active_sessions now sessions = select (λ session. ltb now session.expires_at) sessions

module _ {Doc : Type 0} (lib : Platform Doc) where
  -- `_validate_hash`: true unless it raises
  unfoldable pub validate_hash : PasswordHash → Bool
  validate_hash h =
      nat_eq h.n scrypt_n
      && nat_eq h.r scrypt_r
      && nat_eq h.p scrypt_p
      && nat_eq h.dklen scrypt_dklen
      && elim (lib.b64decode h.salt) [
        | none ↦ false
        | some salt ↦ elim (lib.b64decode h.digest) [
          | none ↦ false
          | some digest ↦ nat_eq (count salt) 16 && nat_eq (count digest) scrypt_dklen
        ]
      ]

  unfoldable pub read_doc : Doc → Result AuthError (Option AuthState)
  read_doc doc = elim (lib.load doc) [
    | none ↦ err AuthError.corrupt
    | some state ↦ if validate_hash state.password then ok (some state) else err AuthError.corrupt
  ]

  -- `_read`
  unfoldable pub read : AuthFile Doc → Result AuthError (Option AuthState)
  read missing = ok none
  read unreadable = err AuthError.corrupt
  read (contents doc) = read_doc doc

  unfoldable pub configured : AuthFile Doc → Result AuthError Bool
  configured file = bind_result (read file) (λ state. ok (is_some state))

  unfoldable pub session_matches : String → ℕ → SessionHash → Bool
  session_matches token now session =
      ltb now session.expires_at && session.token_hash == lib.sha256_hex token

  unfoldable pub session_valid : Option String → ℕ → AuthFile Doc → Result AuthError Bool
  session_valid none now file = ok false
  session_valid (some token) now file =
      if is_empty token
      then ok false
      else bind_result (read file) λ state. elim state [
        | none ↦ ok false
        | some s ↦ ok (any (session_matches token now) s.sessions)
      ]

  -- `_hash_password`, with the salt drawn
  unfoldable pub hash_password : String → String → Result AuthError PasswordHash
  hash_password salt password = elim (lib.scrypt password salt) [
    | none ↦ err AuthError.value_error
    | some digest ↦ ok (record {
      salt = lib.b64encode salt;
      digest = lib.b64encode digest;
      n = scrypt_n;
      r = scrypt_r;
      p = scrypt_p;
      dklen = scrypt_dklen;
    })
  ]

  -- `_verify_password`
  unfoldable pub verify_password : String → PasswordHash → Bool
  verify_password password h =
      if ltb max_password_length (count password) then false else elim (lib.b64decode h.salt) [
        | none ↦ false
        | some salt ↦ elim (lib.b64decode h.digest) [
          | none ↦ false
          | some expected ↦ elim (lib.scrypt password salt) [
            | none ↦ false
            | some actual ↦ actual == expected
          ]
        ]
      ]

  -- `state is None or not self._verify_password(…)`, which login, change and disable share
  unfoldable pub authenticate : String → AuthFile Doc → Result AuthError AuthState
  authenticate password file = bind_result (read file) λ found. elim found [
    | none ↦ err AuthError.invalid_password
    | some state ↦
        if verify_password password state.password then ok state else err AuthError.invalid_password
  ]

  -- `_new_session`
  unfoldable pub new_session : ℕ → Draw → SessionHash
  new_session session_days draw = record {
    token_hash = lib.sha256_hex draw.token;
    expires_at = draw.created + session_seconds session_days;
  }

-- `_locked`: the block runs if the lock can be taken
unfoldable pub locked :
    {Doc A : Type 0} → Draw → Exec (AuthFile Doc) AuthError A → Exec (AuthFile Doc) AuthError A
locked draw block = elim draw.fault [ Fault.at_lock ↦ raise AuthError.os_error | _ ↦ block ]

-- The replacement of the file, by `os.replace` or by `unlink`, and the sync of its directory.
unfoldable pub commit : {Doc : Type 0} → Fault → AuthFile Doc → Exec (AuthFile Doc) AuthError Unit
commit before_commit new old = (err AuthError.os_error, old)
commit after_commit new old = (err AuthError.os_error, new)
commit at_lock new old = (err AuthError.os_error, old)
commit no_fault new old = (ok tt, new)

module _ {Doc : Type 0} (lib : Platform Doc) where
  -- `_write`: the text goes to a temporary file, which then replaces the file
  unfoldable pub write : Draw → AuthState → Exec (AuthFile Doc) AuthError Unit
  write draw state = commit draw.fault (contents (lib.dump state))

  unfoldable pub disable : Draw → String → Exec (AuthFile Doc) AuthError Unit
  disable draw current_password =
      locked draw (do state ← reads (authenticate lib current_password); commit draw.fault missing)

  unfoldable pub logout : Draw → Option String → Exec (AuthFile Doc) AuthError Unit
  logout draw none = pure tt
  logout draw (some token) =
      if is_empty token
      then pure tt
      else locked draw (do
        found ← reads (read lib)
        elim found [
          | none ↦ pure tt
          | some state ↦ write draw (record state {
            sessions =
                select (λ session. not (session.token_hash == lib.sha256_hex token))
                  (active_sessions draw.checked state.sessions);
          })
        ])

module _ {Doc : Type 0} (lib : Platform Doc) (session_days : ℕ) where
  unfoldable pub setup : Draw → String → Exec (AuthFile Doc) AuthError String
  setup draw password = do
    lift (validate_password password)
    locked draw (do
      found ← reads (read lib)
      if is_some found then raise AuthError.already_configured else do
        hash ← lift (hash_password lib draw.salt password)
        write lib draw
            (record { password = hash; sessions = new_session lib session_days draw ∷ [] })
        pure draw.token)

  unfoldable pub login : Draw → String → Exec (AuthFile Doc) AuthError String
  login draw password = locked draw (do
    state ← reads (authenticate lib password)
    write lib draw (record state {
      sessions =
          take_last (max_sessions - 1) (active_sessions draw.checked state.sessions)
          ++ new_session lib session_days draw ∷ [];
    })
    pure draw.token)

  unfoldable pub change_password : Draw → String → String → Exec (AuthFile Doc) AuthError String
  change_password draw current_password new_password = do
    lift (validate_password new_password)
    locked draw (do
      state ← reads (authenticate lib current_password)
      hash ← lift (hash_password lib draw.salt new_password)
      write lib draw (record { password = hash; sessions = new_session lib session_days draw ∷ [] })
      pure draw.token)
