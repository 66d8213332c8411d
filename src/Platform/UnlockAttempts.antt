-- ===== src/Platform/UnlockAttempts.antt =====
-- src/platform/unlock-attempts.ts: the counter of failed unlocks and its backoff. The state is the
-- content of the counter's file, `none` where it is missing or cannot be read; times are in
-- milliseconds, and the quotients by 1000 are exact.
use abracadabra.Common.{
  ℕ, suc, ◌+◌, ◌-◌, ◌*◌, ◌/◌, ◌^◌, ◌≤◌, ◌⊎◌, inl, inr, Bool-cases, ltb, leb, false, ◌≡◌, ◌↔◌, refl,
  ◌∙◌, if◌then◌else◌, Option, none, some, List, [], ◌∷◌, ◌++◌, length, Result, ok, err, arith,
}

abbrev pub max_backoff_sec : ℕ
max_backoff_sec = 900

abbrev pub failures_before_backoff : ℕ
failures_before_backoff = 5

pub record UnlockAttemptsState : Type 0 where
  pub failures : ℕ
  pub last_failure_at : ℕ

unfoldable pub load_unlock_attempts : Option UnlockAttemptsState → UnlockAttemptsState
load_unlock_attempts none = record { failures = 0; last_failure_at = 0 }
load_unlock_attempts (some s) = s

abbrev pub min : ℕ → ℕ → ℕ
min a b = if leb a b then a else b

unfoldable pub backoff_seconds_for_failures : ℕ → ℕ
backoff_seconds_for_failures failures =
    if ltb failures failures_before_backoff
    then 0
    else min max_backoff_sec (2 ^ (failures - failures_before_backoff))

-- `Math.ceil(waitSec - (now - lastFailureAt) / 1000)`, where it is positive.
unfoldable pub remaining_seconds : (wait last_failure_at now : ℕ) → ℕ
remaining_seconds wait last_failure_at now = (last_failure_at + wait * 1000 - now + 999) / 1000

unfoldable pub assert_unlock_allowed : Option UnlockAttemptsState → (now : ℕ) → Result ℕ Unit
assert_unlock_allowed file now =
    let state = load_unlock_attempts file in
    let wait = backoff_seconds_for_failures state.failures in
    let remaining = remaining_seconds wait state.last_failure_at now in
    if leb wait 0 then ok tt else if ltb 0 remaining then err remaining else ok tt

unfoldable pub record_unlock_failure :
    Option UnlockAttemptsState → (now : ℕ) → Option UnlockAttemptsState
record_unlock_failure file now =
    some (record { failures = (load_unlock_attempts file).failures + 1; last_failure_at = now })

unfoldable pub reset_unlock_attempts : Option UnlockAttemptsState → Option UnlockAttemptsState
reset_unlock_attempts file = some (record { failures = 0; last_failure_at = 0 })

-- Failures at these times, one after the other.
abbrev pub fails : Option UnlockAttemptsState → List ℕ → Option UnlockAttemptsState
fails file [] = file
fails file (t ∷ ts) = fails (record_unlock_failure file t) ts

fails-failures :
    (file : Option UnlockAttemptsState) (ts : List ℕ)
    → (load_unlock_attempts (fails file ts)).failures
      ≡ (load_unlock_attempts file).failures + length ts
unfolding load_unlock_attempts record_unlock_failure
fails-failures file [] = omega arith
fails-failures file (t ∷ ts) = fails-failures (record_unlock_failure file t) ts ∙ omega arith

fails-append :
    (file : Option UnlockAttemptsState) (ts us : List ℕ)
    → fails file (ts ++ us) ≡ fails (fails file ts) us
fails-append file [] us = refl
fails-append file (t ∷ ts) us = fails-append (record_unlock_failure file t) ts us

pow_suc : (k : ℕ) → 2 ^ suc k ≡ 2 * 2 ^ k
pow_suc k = omega arith

pow_step : (n : ℕ) → 5 ≤ n → 2 ^ (suc n - 5) ≡ 2 * 2 ^ (n - 5)
pow_step n h = let e : suc n - 5 ≡ suc (n - 5) = omega arith in rw e (pow_suc (n - 5))

-- The wait after a failure never shrinks with one more failure, and never exceeds 15 minutes.
pub backoff_lem :
    (n : ℕ)
    → (backoff_seconds_for_failures n ≤ backoff_seconds_for_failures (suc n))
      × (backoff_seconds_for_failures n ≤ 900)
unfolding backoff_seconds_for_failures
backoff_lem n = elim (Bool-cases (ltb n 5)) [
  | inl e ↦ ground arith
  | inr e ↦ let h : 5 ≤ n = ground arith in ground (arith, pow_step n h)
]

allowed_lem :
    (wait last now : ℕ)
    → (ltb 0 (remaining_seconds wait last now) ≡ false) ↔ (last + wait * 1000 ≤ now)
unfolding remaining_seconds
allowed_lem wait last now = ground arith

-- After a reset and some failures, the last of them at time `t`, an unlock is let through exactly
-- from the moment on that the backoff for so many failures, counted from `t`, is over; or at once
-- where there are too few failures for one.
pub assert_unlock_allowed_iff :
    (file : Option UnlockAttemptsState) (ts : List ℕ) (t now : ℕ)
    → (assert_unlock_allowed (fails (reset_unlock_attempts file) (ts ++ t ∷ [])) now ≡ ok tt) ↔ (
        (backoff_seconds_for_failures (length ts + 1) ≡ 0)
        ⊎ (t + backoff_seconds_for_failures (length ts + 1) * 1000 ≤ now))
unfolding assert_unlock_allowed reset_unlock_attempts record_unlock_failure load_unlock_attempts
assert_unlock_allowed_iff file ts t now =
    let count = fails-failures (reset_unlock_attempts file) ts in
    rw (fails-append (reset_unlock_attempts file) ts (t ∷ []), count)
      (ground (arith, allowed_lem (backoff_seconds_for_failures (length ts + 1)) t now))
