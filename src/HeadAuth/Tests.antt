-- ===== src/HeadAuth/Tests.antt =====
-- Runs of the store, the throttle, the middleware and the pages on concrete libraries, and the
-- theorems at them.
use Prim.Native.String.{count}
use cozy_nm.Base.{
  ◌≡◌, refl, ◌≢◌, String, ◌==◌, eq_iff, Bool, true, false, Option, none, some, ok, err, arith,
  if◌then◌else◌, all, all-eq-true, All-of_all, Bool-cases, inl, inr,
}
use cozy_nm.HeadAuth.State.{
  AuthState, SessionHash, Platform, IsSound, IsInstance, os_error, is_token_hash, validate_password,
  scrypt_dklen, corrupt,
}
use cozy_nm.HeadAuth.Store.{
  AuthFile, missing, unreadable, Draw, no_fault, before_commit, after_commit, setup, login,
  change_password, logout, read, session_valid, locked, hash_password, write, commit, authenticate,
  read_doc, validate_hash, verify_password, new_session, active_sessions, session_matches,
  session_seconds,
}
use cozy_nm.HeadAuth.Store.Sessions.{
  login-session_valid, change_password-session_valid, logout-session_valid,
}
use cozy_nm.HeadAuth.Store.Passwords.{setup-login, change_password-verifies}
use cozy_nm.HeadAuth.Store.Atomic.{run, setup_call, login_call, run_atomic}
use cozy_nm.HeadAuth.Store.Histories.{IsHealthy, unset, History-IsHealthy, start, then_run}

abbrev pub digest_a : String
digest_a = "AAAAAAAAAAAAAAAAAAAAAAAAAAAAAAAA"

abbrev pub digest_b : String
digest_b = "BBBBBBBBBBBBBBBBBBBBBBBBBBBBBBBB"

abbrev pub hash_a : String
hash_a = "aaaaaaaaaaaaaaaaaaaaaaaaaaaaaaaaaaaaaaaaaaaaaaaaaaaaaaaaaaaaaaaa"

abbrev pub hash_b : String
hash_b = "bbbbbbbbbbbbbbbbbbbbbbbbbbbbbbbbbbbbbbbbbbbbbbbbbbbbbbbbbbbbbbbb"

abbrev pub well_formed : AuthState → Bool
well_formed s = all (λ session. is_token_hash session.token_hash) s.sessions

-- Libraries that tell two passwords and two tokens apart, with the state itself as file contents.
abbrev pub toy : Platform (Option AuthState)
toy = record {
  scrypt = λ password salt. some (if password == "correct horse" then digest_a else digest_b);
  sha256_hex = λ token. if token == "first" then hash_a else hash_b;
  b64encode = λ bytes. bytes;
  b64decode = λ text. some text;
  load = λ doc. elim doc [ none ↦ none | some s ↦ if well_formed s then some s else none ];
  dump = λ s. some s;
}

scrypt_length_toy :
    (password salt digest : String)
    → toy.scrypt password salt ≡ some digest
    → count digest ≡ scrypt_dklen
scrypt_length_toy password salt digest h = elim (Bool-cases (password == "correct horse")) [
  | inl e ↦ let e' : digest_a ≡ digest = ground arith in rw (← e')
  | inr e ↦ let e' : digest_b ≡ digest = ground arith in rw (← e')
]

sha256_pattern_toy : (token : String) → is_token_hash (toy.sha256_hex token) ≡ true
unfolding is_token_hash
sha256_pattern_toy token = elim (Bool-cases (token == "first")) [ inl e ↦ rw e | inr e ↦ rw e ]

load-IsInstance_toy :
    (doc : Option AuthState) (s : AuthState) → toy.load doc ≡ some s → IsInstance s
load-IsInstance_toy none s h = absurd (ground arith)
load-IsInstance_toy (some t) s h = elim (Bool-cases (well_formed t)) [
  | inr e ↦ absurd (ground arith)
  | inl e ↦
      let same : t ≡ s = ground arith in
      All-of_all (λ (x : SessionHash). is_token_hash x.token_hash) s.sessions (rw (← same) e)
]

load_inverse_toy : (s : AuthState) → IsInstance s → toy.load (toy.dump s) ≡ some s
load_inverse_toy s h =
    rw (all-eq-true (λ (x : SessionHash). is_token_hash x.token_hash) s.sessions h)

pub toy-IsSound : IsSound toy
toy-IsSound = record {
  scrypt_length = scrypt_length_toy;
  sha256_pattern = sha256_pattern_toy;
  b64_inverse = λ bytes. refl;
  load_instance = load-IsInstance_toy;
  load_inverse = load_inverse_toy;
}

abbrev pub first_draw : Draw
first_draw = record {
  token = "first";
  salt = "0123456789abcdef";
  created = 1000;
  checked = 1000;
  fault = no_fault;
}

abbrev pub second_draw : Draw
second_draw = record first_draw { token = "second"; created = 2000; checked = 2000 }

-- opens the whole store for the runs
unfoldable pub store_code : Unit {0}
unfolding setup validate_password locked read hash_password write commit login authenticate read_doc
    validate_hash verify_password new_session is_token_hash change_password active_sessions
    session_valid session_matches session_seconds logout
store_code = tt

abbrev pub third_draw : Draw
third_draw = record first_draw { token = "third"; created = 3000; checked = 3000 }

abbrev pub file_1 : AuthFile (Option AuthState)
file_1 = (setup toy 30 first_draw "correct horse" missing).1

abbrev pub file_2 : AuthFile (Option AuthState)
file_2 = (login toy 30 second_draw "correct horse" file_1).1

setup_runs : setup toy 30 first_draw "correct horse" missing ≡ (ok "first", file_1)
unfolding store_code
setup_runs = refl

login_runs : login toy 30 second_draw "correct horse" file_1 ≡ (ok "second", file_2)
unfolding store_code
login_runs = refl

login-session_valid_example : session_valid toy (some "second") 2593999 file_2 ≡ ok true
unfolding session_seconds
login-session_valid_example =
    login-session_valid toy toy-IsSound 30 2593999 second_draw "correct horse" "second" file_1
      file_2 login_runs refl (omega arith)

change_runs :
    change_password toy 30 first_draw "correct horse" "battery staple" file_2
    ≡ (ok "first", (change_password toy 30 first_draw "correct horse" "battery staple" file_2).1)
unfolding store_code
change_runs = refl

abbrev file_3 : AuthFile (Option AuthState)
file_3 = (change_password toy 30 first_draw "correct horse" "battery staple" file_2).1

first_valid : session_valid toy (some "first") 2000 file_3 ≡ ok true
unfolding store_code
first_valid = refl

change_password-session_valid_example : toy.sha256_hex "first" ≡ toy.sha256_hex "first"
change_password-session_valid_example =
    change_password-session_valid toy toy-IsSound 30 2000 first_draw "correct horse"
      "battery staple" "first" "first" file_2 file_3 refl change_runs first_valid

logout_runs :
    logout toy third_draw (some "first") file_2
    ≡ (ok tt, (logout toy third_draw (some "first") file_2).1)
unfolding store_code
logout_runs = refl

abbrev file_4 : AuthFile (Option AuthState)
file_4 = (logout toy third_draw (some "first") file_2).1

logout-session_valid_example : session_valid toy (some "first") 3000 file_4 ≡ ok false
logout-session_valid_example =
    logout-session_valid toy toy-IsSound 3000 third_draw "first" file_2 file_4 logout_runs

second_apart : toy.sha256_hex "second" ≢ toy.sha256_hex "first"
second_apart = ground (arith, eq_iff hash_a hash_b)

setup-login_example : (login toy 30 second_draw "correct horse" file_1).0 ≡ ok "second"
setup-login_example =
    setup-login toy toy-IsSound 30 first_draw second_draw "correct horse" "first" missing file_1
      refl setup_runs refl

change_password-verifies_example :
    (s : AuthState) × (read toy file_3 ≡ ok (some s))
    × (verify_password toy "battery staple" s.password ≡ true)
    × ((other : String)
        → verify_password toy other s.password ≡ true
        → toy.scrypt other first_draw.salt ≡ toy.scrypt "battery staple" first_draw.salt)
change_password-verifies_example =
    change_password-verifies toy toy-IsSound 30 first_draw "correct horse" "battery staple" "first"
      file_2 file_3 refl change_runs

abbrev failing_draw : Draw
failing_draw = record third_draw { fault = before_commit }

failing_runs : run toy 30 failing_draw (login_call "correct horse") file_2 ≡ (err os_error, file_2)
unfolding store_code run
failing_runs = refl

faults_apart : before_commit ≢ after_commit
faults_apart = ground arith

run_atomic_example : file_2 ≡ file_2
run_atomic_example =
    run_atomic toy 30 failing_draw (login_call "correct horse") file_2 file_2 os_error failing_runs
      faults_apart

corrupt_reads : read toy unreadable ≡ err corrupt
unfolding store_code
corrupt_reads = refl

missing-IsHealthy : IsHealthy toy missing
unfolding store_code
missing-IsHealthy = unset refl

History-IsHealthy_example :
    IsHealthy toy (run toy 30 second_draw (setup_call "correct horse") missing).1
History-IsHealthy_example =
    History-IsHealthy toy toy-IsSound 30 missing-IsHealthy
      (then_run start second_draw (setup_call "correct horse") refl)
