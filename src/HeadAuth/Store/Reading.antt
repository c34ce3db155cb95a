-- ===== src/HeadAuth/Store/Reading.antt =====
-- What `_read` returns, for a file as it was found and for one that the store wrote.
use Prim.Native.String.{count}
use cozy_nm.Base.{◌≤◌, ◌≡◌, String, true, eq_iff, eq_refl, some, arith, ok, Option-cases, inl, inr}
use cozy_nm.HeadAuth.State.{
  PasswordHash, AuthState, IsInstance, Platform, IsSound, max_password_length,
}
use cozy_nm.HeadAuth.Store.{
  AuthFile, contents, missing, unreadable, validate_hash, read_doc, read, hash_password,
  verify_password, authenticate,
}

read_doc-loaded :
    {Doc : Type 0} (lib : Platform Doc) (doc : Doc) (s : AuthState)
    → read_doc lib doc ≡ ok (some s)
    → (lib.load doc ≡ some s) × (validate_hash lib s.password ≡ true)
unfolding read_doc
read_doc-loaded lib doc s h = ground arith

pub authenticate-read :
    {Doc : Type 0} (lib : Platform Doc) (file : AuthFile Doc) (password : String) (s : AuthState)
    → authenticate lib password file ≡ ok s
    → (read lib file ≡ ok (some s)) × (verify_password lib password s.password ≡ true)
unfolding authenticate
authenticate-read lib file password s h = ground arith

module _ {Doc : Type 0} (lib : Platform Doc) (sound : IsSound lib) where
  -- A state that was read is one that pydantic and `_validate_hash` let through.
  pub read-IsInstance :
      (file : AuthFile Doc) (s : AuthState)
      → read lib file ≡ ok (some s)
      → IsInstance s × (validate_hash lib s.password ≡ true)
  unfolding read read_doc
  read-IsInstance missing s h = absurd (cc)
  read-IsInstance unreadable s h = absurd (cc)
  read-IsInstance (contents doc) s h =
      let (loaded, checked) = read_doc-loaded lib doc s h in
      (sound.load_instance doc s loaded, checked)

  -- What was written is read back.
  pub read-write :
      (s : AuthState)
      → IsInstance s
      → validate_hash lib s.password ≡ true
      → read lib (contents (lib.dump s)) ≡ ok (some s)
  unfolding read read_doc
  read-write s i v = rw (sound.load_inverse s i, read_doc) (rw v)

  pub hash_password-validate_hash :
      (salt password : String) (h : PasswordHash)
      → count salt ≡ 16
      → hash_password lib salt password ≡ ok h
      → validate_hash lib h ≡ true
  unfolding hash_password validate_hash
  hash_password-validate_hash salt password h c e = elim (Option-cases (lib.scrypt password salt)) [
    | inl broken ↦ absurd (ground arith)
    | inr (digest, hashed) ↦ ground (
      arith,
      sound.b64_inverse salt,
      sound.b64_inverse digest,
      sound.scrypt_length password salt digest,
    )
  ]

  -- The hash of a password accepts exactly the passwords with the same scrypt digest.
  pub verify-hash_password :
      (salt password : String) (h : PasswordHash)
      → hash_password lib salt password ≡ ok h
      → count password ≤ max_password_length
      → verify_password lib password h ≡ true
  unfolding hash_password verify_password
  verify-hash_password salt password h e le = elim (Option-cases (lib.scrypt password salt)) [
    | inl broken ↦ absurd (ground arith)
    | inr (digest, hashed) ↦
        ground (arith, sound.b64_inverse salt, sound.b64_inverse digest, eq_refl digest)
  ]

  pub scrypt-eq_of_verify :
      (salt password other : String) (h : PasswordHash)
      → hash_password lib salt password ≡ ok h
      → verify_password lib other h ≡ true
      → lib.scrypt other salt ≡ lib.scrypt password salt
  unfolding hash_password verify_password
  scrypt-eq_of_verify salt password other h e v = elim (Option-cases (lib.scrypt password salt)) [
    | inl broken ↦ absurd (ground arith)
    | inr (digest, hashed) ↦ elim (Option-cases (lib.scrypt other salt)) [
      | inl broken ↦ absurd (ground (arith, sound.b64_inverse salt, sound.b64_inverse digest))
      | inr (actual, found) ↦
          ground (arith, sound.b64_inverse salt, sound.b64_inverse digest, eq_iff actual digest)
    ]
  ]
