-- ===== src/HeadAuth/Store/Passwords.antt =====
-- Which passwords the store accepts after a setup and after a change.
use Prim.Native.String.{count}
use cozy_nm.Base.{ℕ, ◌≤◌, ◌≡◌, String, true, some, arith, ok, err, if◌then◌else◌}
use cozy_nm.HeadAuth.State.{
  AuthError, PasswordHash, AuthState, Platform, IsSound, max_password_length, validate_password,
}
use cozy_nm.HeadAuth.Store.{
  AuthFile, contents, Draw, no_fault, read, hash_password, verify_password, authenticate, setup,
  login, change_password, locked, write, commit,
}
use cozy_nm.HeadAuth.Store.Reading.{verify-hash_password, scrypt-eq_of_verify}
use cozy_nm.HeadAuth.Store.Outcomes.{signed_in, renewed, setup-ok, change_password-ok}
use cozy_nm.HeadAuth.Store.Written.{read-renewed}

validate_password-le : (p : String) → validate_password p ≡ ok tt → count p ≤ max_password_length
unfolding validate_password
validate_password-le p h = ground arith

module _ {Doc : Type 0} (lib : Platform Doc) where
  authenticate-of_read :
      (file : AuthFile Doc) (password : String) (s : AuthState)
      → read lib file ≡ ok (some s)
      → authenticate lib password file
        ≡ (if verify_password lib password s.password then ok s else err AuthError.invalid_password)
  unfolding authenticate
  authenticate-of_read file password s h = rw h

  -- A login under a password that the store accepts, where nothing fails, returns the drawn token.
  login_total :
      (days : ℕ) (draw : Draw) (password : String) (file : AuthFile Doc) (s : AuthState)
      → draw.fault ≡ no_fault
      → authenticate lib password file ≡ ok s
      → login lib days draw password file
        ≡ (ok draw.token, contents (lib.dump (signed_in lib days draw s)))
  unfolding login locked write commit
  login_total days draw password file s f h = ground arith

module _ {Doc : Type 0} (lib : Platform Doc) (sound : IsSound lib) where
  renewed-authenticate :
      (days : ℕ) (draw : Draw) (password : String) (hash : PasswordHash)
      → count draw.salt ≡ 16
      → validate_password password ≡ ok tt
      → hash_password lib draw.salt password ≡ ok hash
      → authenticate lib password (contents (lib.dump (renewed lib days draw hash)))
        ≡ ok (renewed lib days draw hash)
  renewed-authenticate days draw password hash c rule h = rw (
    authenticate-of_read lib (contents (lib.dump (renewed lib days draw hash))) password
        (renewed lib days draw hash) (read-renewed lib sound days draw password hash c h),
    verify-hash_password lib sound draw.salt password hash h (validate_password-le password rule),
  )

  -- After a successful setup, a login with that password succeeds with its own token.
  pub setup-login :
      (days : ℕ) (first later : Draw) (password token : String) (file file' : AuthFile Doc)
      → count first.salt ≡ 16
      → setup lib days first password file ≡ (ok token, file')
      → later.fault ≡ no_fault
      → (login lib days later password file').0 ≡ ok later.token
  setup-login days first later password token file file' c h f =
      let (hash, rule, fresh, hashed, same, written) =
        setup-ok lib days first password token file file' h in
      rw (
        written,
        login_total lib days later password (contents (lib.dump (renewed lib days first hash)))
            (renewed lib days first hash) f
            (renewed-authenticate days first password hash c rule hashed),
      )

  -- After a successful change the file is readable, the new password is accepted, and every
  -- accepted password has the new password's scrypt digest under the drawn salt.
  pub change_password-verifies :
      (days : ℕ) (draw : Draw) (current new token : String) (file file' : AuthFile Doc)
      → count draw.salt ≡ 16
      → change_password lib days draw current new file ≡ (ok token, file')
      → (s : AuthState) × (read lib file' ≡ ok (some s))
        × (verify_password lib new s.password ≡ true)
        × ((other : String)
            → verify_password lib other s.password ≡ true
            → lib.scrypt other draw.salt ≡ lib.scrypt new draw.salt)
  change_password-verifies days draw current new token file file' c h =
      let (old, hash, rule, found, hashed, same, written) =
        change_password-ok lib days draw current new token file file' h in
      (
        renewed lib days draw hash,
        rw written (read-renewed lib sound days draw new hash c hashed),
        verify-hash_password lib sound draw.salt new hash hashed (validate_password-le new rule),
        λ other v. scrypt-eq_of_verify lib sound draw.salt new other hash hashed v,
      )
