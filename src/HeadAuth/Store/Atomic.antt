-- ===== src/HeadAuth/Store/Atomic.antt =====
-- What the operations leave behind when they raise.
use cozy_nm.Base.{
  ℕ, ◌≡◌, ◌≢◌, refl, String, false, some, none, Option, arith, ok, err, is_empty, Exec, pure, ◌>>=◌,
  ◌>>◌,
}
use cozy_nm.HeadAuth.State.{AuthError, corrupt, Platform, validate_password}
use cozy_nm.HeadAuth.Store.{
  AuthFile, Draw, after_commit, at_lock, read, authenticate, setup, login, change_password, disable,
  logout, locked, write, commit,
}

module _ {Doc : Type 0} (lib : Platform Doc) (draw : Draw) (file : AuthFile Doc) where
  setup_atomic :
      (days : ℕ) (password : String) (e : AuthError) (file' : AuthFile Doc)
      → setup lib days draw password file ≡ (err e, file')
      → draw.fault ≢ after_commit
      → file' ≡ file
  unfolding setup locked write commit
  setup_atomic days password e file' h f = ground arith

  login_atomic :
      (days : ℕ) (password : String) (e : AuthError) (file' : AuthFile Doc)
      → login lib days draw password file ≡ (err e, file')
      → draw.fault ≢ after_commit
      → file' ≡ file
  unfolding login locked write commit
  login_atomic days password e file' h f = ground arith

  change_password_atomic :
      (days : ℕ) (current new : String) (e : AuthError) (file' : AuthFile Doc)
      → change_password lib days draw current new file ≡ (err e, file')
      → draw.fault ≢ after_commit
      → file' ≡ file
  unfolding change_password locked write commit
  change_password_atomic days current new e file' h f = ground arith

  disable_atomic :
      (current : String) (e : AuthError) (file' : AuthFile Doc)
      → disable lib draw current file ≡ (err e, file')
      → draw.fault ≢ after_commit
      → file' ≡ file
  unfolding disable locked commit
  disable_atomic current e file' h f = ground arith

  logout_atomic :
      (token : Option String) (e : AuthError) (file' : AuthFile Doc)
      → logout lib draw token file ≡ (err e, file')
      → draw.fault ≢ after_commit
      → file' ≡ file
  unfolding logout locked write commit
  logout_atomic none e file' h f = ground arith
  logout_atomic (some token) e file' h f = ground arith

-- One call of the store by the pages of the head; the token is what `setup`, `login` and
-- `change_password` return.
pub data Call : Type 0 where
  setup_call : String → Call
  login_call : String → Call
  change_call : String → String → Call
  disable_call : String → Call
  logout_call : Option String → Call

unfoldable pub run :
    {Doc : Type 0} → Platform Doc → ℕ → Draw → Call → Exec (AuthFile Doc) AuthError (Option String)
run lib days draw (setup_call password) = do token ← setup lib days draw password; pure (some token)
run lib days draw (login_call password) = do token ← login lib days draw password; pure (some token)
run lib days draw (change_call current new) = do
  token ← change_password lib days draw current new
  pure (some token)
run lib days draw (disable_call current) = do disable lib draw current; pure none
run lib days draw (logout_call token) = do logout lib draw token; pure none

-- An operation that raises leaves the file as it was, unless the sync after the replacement failed.
pub run_atomic :
    {Doc : Type 0} (lib : Platform Doc) (days : ℕ) (draw : Draw) (call : Call)
    (file file' : AuthFile Doc) (e : AuthError)
    → run lib days draw call file ≡ (err e, file')
    → draw.fault ≢ after_commit
    → file' ≡ file
unfolding run
run_atomic lib days draw (setup_call p) file file' e h f =
    setup_atomic lib draw file days p e file' (ground arith) f
run_atomic lib days draw (login_call p) file file' e h f =
    login_atomic lib draw file days p e file' (ground arith) f
run_atomic lib days draw (change_call c n) file file' e h f =
    change_password_atomic lib draw file days c n e file' (ground arith) f
run_atomic lib days draw (disable_call c) file file' e h f =
    disable_atomic lib draw file c e file' (ground arith) f
run_atomic lib days draw (logout_call t) file file' e h f =
    logout_atomic lib draw file t e file' (ground arith) f

-- What a call raises on a corrupt file: the rule on a new password is checked before the file.
unfoldable pub blocked : Call → AuthError
blocked (setup_call password) = elim (validate_password password) [ ok _ ↦ corrupt | err e ↦ e ]
blocked (change_call current new) = elim (validate_password new) [ ok _ ↦ corrupt | err e ↦ e ]
blocked _ = corrupt

-- A file that cannot be read or is not valid stops every call, but for a logout without a token:
-- where the lock can be taken, the call raises `AuthStateCorrupt`, or the error of the rule on new
-- passwords, and the file stays.
pub run_corrupt :
    {Doc : Type 0} (lib : Platform Doc) (days : ℕ) (draw : Draw) (call : Call) (file : AuthFile Doc)
    → read lib file ≡ err corrupt
    → draw.fault ≢ at_lock
    → call ≢ logout_call none
    → ((token : String) → call ≡ logout_call (some token) → is_empty token ≡ false)
    → run lib days draw call file ≡ (err (blocked call), file)
unfolding run blocked setup login change_password disable logout locked authenticate
run_corrupt lib days draw (setup_call p) file h f n m = ground arith
run_corrupt lib days draw (login_call p) file h f n m = ground arith
run_corrupt lib days draw (change_call c p) file h f n m = ground arith
run_corrupt lib days draw (disable_call c) file h f n m = ground arith
run_corrupt lib days draw (logout_call none) file h f n m = absurd (n refl)
run_corrupt lib days draw (logout_call (some t)) file h f n m = ground (arith, m t refl)
