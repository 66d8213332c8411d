-- ===== src/Platform/Session.antt =====
-- src/platform/session.ts: the master key that one process keeps while it is unlocked. `heap` holds
-- the key buffers of the process, those of the callers too; the time and the TTL (ttlMs, from the
-- environment) are arguments.
pub mod Wiped
use abracadabra.Common.{
  ℕ, ◌+◌, ltb, ◌==◌, Bool, true, false, ◌≡◌, ◌⊎◌, if◌then◌else◌, not, Option, none, some, List, [],
  ◌∷◌, length, Result, ok, err,
}
use abracadabra.Agent.Buffers.{Bytes, Heap, alloc, fill, read}

pub record Session : Type 0 where
  pub heap : Heap
  pub cached_master_key : Option ℕ
  pub unlock_expires_at : ℕ

abbrev pub dropped : Option ℕ → Heap → Heap
dropped none h = h
dropped (some a) h = fill h a

unfoldable pub zero_and_drop : Session → Session
zero_and_drop s = record s { heap = dropped s.cached_master_key s.heap; cached_master_key = none }

unfoldable pub lock_session : Session → Session
unfolding zero_and_drop
lock_session s = record (zero_and_drop s) { unlock_expires_at = 0 }

abbrev pub has_key : Option ℕ → Bool
has_key none = false
has_key (some a) = true

unfoldable pub is_session_unlocked : Session → (now : ℕ) → Session × Bool
unfolding lock_session
is_session_unlocked s now =
    if not (has_key s.cached_master_key)
    then (s, false)
    else if ltb s.unlock_expires_at now
    then (lock_session s, false)
    else (s, true)

-- The buffer itself is handed out, not a copy.
unfoldable pub get_session_master_key : Session → (now : ℕ) → Session × Option ℕ
get_session_master_key s now =
    let (s', unlocked) = is_session_unlocked s now in
    (s', if unlocked then s'.cached_master_key else none)

pub data SessionError : Type 0 where
  bad_length : SessionError

-- `master_key` is the place of the caller's buffer, which is copied.
unfoldable pub unlock_session :
    Session → (master_key : ℕ) → (ttl_ms now : ℕ) → Session × Result SessionError Unit
unfolding zero_and_drop
unlock_session s master_key ttl_ms now =
    let d = zero_and_drop s in
    if not (length (read s.heap master_key) == 32) then (s, err bad_length) else (
      record d {
        heap = alloc d.heap (read d.heap master_key);
        cached_master_key = some (length d.heap);
        unlock_expires_at = now + ttl_ms;
      },
      ok tt,
    )

-- What a process does with its session. `creates` is a caller that makes a key buffer of its own.
pub data SessionCall : Type 0 where
  creates : (key : Bytes) → SessionCall
  unlocks : (master_key ttl_ms now : ℕ) → SessionCall
  looks : (now : ℕ) → SessionCall
  locks : SessionCall

abbrev pub step : Session → SessionCall → Session
step s (creates key) = record s { heap = alloc s.heap key }
step s (unlocks master_key ttl_ms now) = (unlock_session s master_key ttl_ms now).0
step s (looks now) = (get_session_master_key s now).0
step s locks = lock_session s

abbrev pub run : Session → List SessionCall → Session
run s [] = s
run s (c ∷ cs) = run (step s c) cs

abbrev pub fresh : Session
fresh = record { heap = []; cached_master_key = none; unlock_expires_at = 0 }

-- After one of the calls the session's cached key is the buffer `a`.
abbrev pub WasCached : ℕ → Session → List SessionCall → Type 0
WasCached a s [] = ⊥
WasCached a s (c ∷ cs) = ((step s c).cached_master_key ≡ some a) ⊎ WasCached a (step s c) cs
