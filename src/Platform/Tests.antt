-- ===== src/Platform/Tests.antt =====
-- The counter of failed unlocks and the gate before a secret, run.
use abracadabra.Common.{
  ℕ, ◌+◌, ◌*◌, ◌≤◌, str_eq, true, ◌≡◌, ◌↔◌, ◌⊎◌, refl, none, some, List, [], ◌∷◌, ◌++◌, Result, ok,
  err,
}
use abracadabra.Common.Numbers.{nat}
use abracadabra.Agent.Grants
use abracadabra.Agent.Grants.{GrantCaller, GrantStore, empty_store}
use abracadabra.Platform.UnlockAttempts.{
  backoff_seconds_for_failures, assert_unlock_allowed, reset_unlock_attempts, fails,
  assert_unlock_allowed_iff, load_unlock_attempts, remaining_seconds,
}
use abracadabra.Platform.RevealGate.{
  is_ok, authorize_reveal, AuthError, no_tty, Granted, agent_check, authorize_reveal_iff,
}
use abracadabra.Agent.Buffers.{Bytes, read, IsZero}
use abracadabra.Platform.Session.{
  SessionCall, creates, WasCached, unlocks, looks, run, fresh, get_session_master_key,
  is_session_unlocked, unlock_session, zero_and_drop, lock_session,
}
use abracadabra.Platform.Session.Wiped.{lock_session-run}

backoff_test : backoff_seconds_for_failures 8 ≡ 8
unfolding backoff_seconds_for_failures
backoff_test = refl

wait_test :
    assert_unlock_allowed (some (record { failures = 8; last_failure_at = 10000 })) 12500 ≡ err 6
unfolding assert_unlock_allowed load_unlock_attempts backoff_seconds_for_failures remaining_seconds
wait_test = refl

abbrev times : List ℕ
times = 1 ∷ 2 ∷ 3 ∷ 4 ∷ 5 ∷ []

assert_unlock_allowed_iff_example :
    (assert_unlock_allowed (fails (reset_unlock_attempts none) (times ++ 6 ∷ [])) 2006 ≡ ok tt)
    ↔ ((backoff_seconds_for_failures 6 ≡ 0) ⊎ (6 + backoff_seconds_for_failures 6 * 1000 ≤ 2006))
assert_unlock_allowed_iff_example = assert_unlock_allowed_iff none times 6 2006

abbrev node : GrantCaller
node = record { exe = "/usr/bin/node"; dev = nat 1; ino = nat 42 }

abbrev store : GrantStore
store = (Grants.add empty_store "web" node (nat 3600) 1000 "a1").0

abbrev no_terminal : Result AuthError Unit
no_terminal = err no_tty

authorize_reveal_iff_example :
    (is_ok
        (authorize_reveal (agent_check store 2000) "web" "passphrase" (err no_tty) (ok (some node)))
      ≡ true)
    ↔ ((no_terminal ≡ ok tt)
        ⊎ ((no_terminal ≡ err no_tty)
            × (str_eq "passphrase" "passphrase" ≡ true)
            × Granted (agent_check store 2000) "web" (ok (some node))))
authorize_reveal_iff_example =
    authorize_reveal_iff (agent_check store 2000) "web" "passphrase" (err no_tty) (ok (some node))

abbrev key_bytes : Bytes
key_bytes =
    7 ∷ 7 ∷ 7 ∷ 7 ∷ 7 ∷ 7 ∷ 7 ∷ 7 ∷ 7 ∷ 7 ∷ 7 ∷ 7 ∷ 7 ∷ 7 ∷ 7 ∷ 7 ∷ 7 ∷ 7 ∷ 7 ∷ 7 ∷ 7 ∷ 7 ∷ 7 ∷ 7
    ∷ 7 ∷ 7 ∷ 7 ∷ 7 ∷ 7 ∷ 7 ∷ 7 ∷ 7 ∷ []

abbrev uses : List SessionCall
uses = creates key_bytes ∷ unlocks 0 1000 5 ∷ looks 100 ∷ unlocks 0 1000 200 ∷ looks 5000 ∷ []

held_test :
    (get_session_master_key (run fresh (creates key_bytes ∷ unlocks 0 1000 5 ∷ [])) 100).1 ≡ some 1
unfolding get_session_master_key is_session_unlocked unlock_session zero_and_drop read
held_test = refl

lock_session-run_example :
    ((lock_session (run fresh uses)).cached_master_key ≡ none)
    × ((a : ℕ) → WasCached a fresh uses → IsZero (read (lock_session (run fresh uses)).heap a))
lock_session-run_example = lock_session-run uses
