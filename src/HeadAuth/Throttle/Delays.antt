-- ===== src/HeadAuth/Throttle/Delays.antt =====
-- The delays that a client sees.
use cozy_nm.Base.{
  ℕ, ◌+◌, ◌-◌, ◌^◌, ◌≤◌, ◌≡◌, ap, ◌∙◌, String, eq_refl, Option, none, some, min, leb, arith, ok,
  err, List, [], ◌∷◌, length, if◌then◌else◌,
}
use cozy_nm.Base.Dicts.{get, get-assign, get-discard}
use cozy_nm.HeadAuth.Throttle.{
  LoginThrottle, Failures, overflow_error, float_pow2, next_count, delay_of, failed, succeeded,
}

-- A run of failures of one client at the given times, and the failures table after it.
unfoldable pub fail_at : LoginThrottle → String → List ℕ → Failures → Failures
fail_at throttle key [] failures = failures
fail_at throttle key (now ∷ times) failures =
    fail_at throttle key times (failed throttle key now failures).1

-- Each time lies within the reset interval of the one before.
abbrev pub IsBurst : LoginThrottle → ℕ → List ℕ → Type 0
IsBurst throttle previous [] = Unit
IsBurst throttle previous (now ∷ times) =
    (now ≤ throttle.reset_after + previous) × IsBurst throttle now times

-- the last of the times
abbrev pub last_time : ℕ → List ℕ → ℕ
last_time previous [] = previous
last_time previous (now ∷ times) = last_time now times

module _ (throttle : LoginThrottle) (key : String) where
  get-failed_self :
      (now : ℕ) (failures : Failures)
      → get key (failed throttle key now failures).1
        ≡ some (next_count throttle now (get key failures), now)
  unfolding failed
  get-failed_self now failures = rw (get-assign, eq_refl key)

  next_count_near :
      (now count previous : ℕ)
      → now ≤ throttle.reset_after + previous
      → next_count throttle now (some (count, previous)) ≡ count + 1
  unfolding next_count
  next_count_near now count previous h = ground arith

  next_count-none : (now : ℕ) (o : Option (ℕ × ℕ)) → o ≡ none → next_count throttle now o ≡ 1
  unfolding next_count
  next_count-none now o h = ground arith

  burst_count :
      (count previous : ℕ) (times : List ℕ) (failures : Failures)
      → get key failures ≡ some (count, previous)
      → IsBurst throttle previous times
      → get key (fail_at throttle key times failures)
        ≡ some (length times + count, last_time previous times)
  unfolding fail_at
  burst_count count previous [] failures h b = ground arith
  burst_count count previous (now ∷ times) failures h (b, bs) = ground (
    arith,
    burst_count (count + 1) now times (failed throttle key now failures).1,
    get-failed_self now failures,
    next_count_near now count previous,
  )

  delay_of_lem :
      (n : ℕ)
      → delay_of throttle (n + 2) ≡ (
          if leb 1023 n
          then err overflow_error
          else ok (min (2 ^ (n + 1)) throttle.max_delay_seconds))
  unfolding delay_of float_pow2
  delay_of_lem n = let e : n + 2 - 1 ≡ n + 1 = omega arith in rw (e, delay_of) (ground arith)

  -- the count of the failure after a burst
  burst_next :
      (first now : ℕ) (times : List ℕ) (failures : Failures)
      → get key failures ≡ none
      → IsBurst throttle first times
      → now ≤ throttle.reset_after + last_time first times
      → next_count throttle now (get key (fail_at throttle key (first ∷ times) failures))
        ≡ length times + 2
  unfolding fail_at
  burst_next first now times failures h b le = ground (
    arith,
    get-failed_self first failures,
    next_count-none first (get key failures),
    burst_count 1 first times (failed throttle key first failures).1,
    next_count_near now (length times + 1) (last_time first times),
  )

  -- In a burst of failures after none, the n-th waits min(2 ** (n - 1), max_delay) seconds, for n
  -- up to 1024; from the 1025th on `OverflowError` is raised in place of a delay.
  pub burst_delay :
      (first now : ℕ) (times : List ℕ) (failures : Failures)
      → get key failures ≡ none
      → IsBurst throttle first times
      → now ≤ throttle.reset_after + last_time first times
      → (failed throttle key now (fail_at throttle key (first ∷ times) failures)).0 ≡ (
          if leb 1023 (length times)
          then err overflow_error
          else ok (min (2 ^ (length times + 1)) throttle.max_delay_seconds))
  unfolding failed
  burst_delay first now times failures h b le =
      ap (delay_of throttle) (burst_next first now times failures h b le)
      ∙ delay_of_lem (length times)

  -- After a success the next failure of the same client is the first of a new burst.
  pub failed-succeeded :
      (now : ℕ) (failures : Failures)
      → (failed throttle key now (succeeded key failures)).0 ≡ ok (min 1 throttle.max_delay_seconds)
  unfolding failed succeeded delay_of float_pow2 next_count
  failed-succeeded now failures = rw (get-discard, eq_refl key)
