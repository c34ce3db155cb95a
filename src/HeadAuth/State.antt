-- ===== src/HeadAuth/State.antt =====
-- services/head_auth.py, lines 21 to 85: constants, errors, the stored models, the password rule.
-- A `bytes` value is the text of its bytes. `expires_at` and the scrypt parameters are natural
-- numbers: the program writes no others, and a negative expiry in a hand-made file has expired.
use Prim.Native.String.{count}
use cozy_nm.Base.{
  ℕ, ◌^◌, ◌≡◌, String, Bool, true, ◌&&◌, ◌||◌, Option, List, nat_eq, leb, ltb, if◌then◌else◌,
  all_chars, All, Result, ok, err,
}

abbrev pub min_password_length : ℕ
min_password_length = 8

abbrev pub max_password_length : ℕ
max_password_length = 1024

abbrev pub scrypt_n : ℕ
scrypt_n = 2 ^ 15

abbrev pub scrypt_r : ℕ
scrypt_r = 8

abbrev pub scrypt_p : ℕ
scrypt_p = 1

abbrev pub scrypt_dklen : ℕ
scrypt_dklen = 32

abbrev pub max_sessions : ℕ
max_sessions = 32

-- `os_error` and `value_error` are the exceptions of the calls that the store does not catch.
pub data AuthError : Type 0 where
  corrupt already_configured invalid_password too_short too_long os_error value_error : AuthError

pub record PasswordHash : Type 0 where
  pub salt : String
  pub digest : String
  pub n : ℕ
  pub r : ℕ
  pub p : ℕ
  pub dklen : ℕ

pub record SessionHash : Type 0 where
  pub token_hash : String
  pub expires_at : ℕ

pub record AuthState : Type 0 where
  pub password : PasswordHash
  pub sessions : List SessionHash

-- the pattern ^[0-9a-f]{64}$ of `token_hash`
unfoldable pub is_token_hash : String → Bool
is_token_hash s =
    nat_eq (count s) 64 && all_chars (λ c. leb b'0' c && leb c b'9' || leb b'a' c && leb c b'f') s

-- What pydantic guarantees of an `AuthState` beyond its types.
abbrev pub IsInstance : AuthState → Type 0
IsInstance state = All (λ session. is_token_hash session.token_hash ≡ true) state.sessions

unfoldable pub validate_password : String → Result AuthError Unit
validate_password password =
    if ltb (count password) min_password_length
    then err AuthError.too_short
    else if ltb max_password_length (count password)
    then err AuthError.too_long
    else ok tt

-- The libraries that the store calls: hashlib, base64 and pydantic over a type `Doc` of file
-- contents. `none` is an exception that is a `ValueError`.
pub record Platform (Doc : Type 0) : Type 0 where
  pub scrypt : String → String → Option String
  pub sha256_hex : String → String
  pub b64encode : String → String
  pub b64decode : String → Option String
  pub load : Doc → Option AuthState
  pub dump : AuthState → Doc

-- What those libraries document.
pub record IsSound {Doc : Type 0} (lib : Platform Doc) : Type 0 where
  pub scrypt_length :
      (password salt digest : String)
      → lib.scrypt password salt ≡ Option.some digest
      → count digest ≡ scrypt_dklen
  pub sha256_pattern : (token : String) → is_token_hash (lib.sha256_hex token) ≡ true
  pub b64_inverse : (bytes : String) → lib.b64decode (lib.b64encode bytes) ≡ Option.some bytes
  pub load_instance :
      (doc : Doc) (state : AuthState) → lib.load doc ≡ Option.some state → IsInstance state
  pub load_inverse :
      (state : AuthState) → IsInstance state → lib.load (lib.dump state) ≡ Option.some state
