-- ===== src/Agent/State.antt =====
-- src/agent/state.ts: the unlocked master key, the idle lock and the absolute max age.
-- Each method takes the time that it reads from the clock. A timer is the time at which it is due.
-- `onLock` is the callback that `startAgent` passes, `grants.clear()`, so the grants stand in the
-- record; `onIdleLock` and `onMaxAgeLock` only write a log line and are left out.
-- The state of one agent. `heap` holds the buffers that the agent itself has allocated for keys, its
-- copies and the decoded keys of `unlock.key`; `key` is the place of the live one. `resolved` holds
-- the buffers that `resolveMasterKey` has handed to `unlock`, which drops them as they are.
pub mod Invariant
pub mod Expiry
pub mod Race
mod Tests
use abracadabra.Common.{
  ℕ, ◌+◌, ◌-◌, leb, ltb, ◌==◌, Bool, true, false, ◌||◌, not, if◌then◌else◌, Option, none, some,
  List, [], ◌∷◌, Result, ok, err, length,
}
use abracadabra.Agent.Buffers.{Bytes, Heap, alloc, fill}
use abracadabra.Agent.Grants
use abracadabra.Agent.Grants.{GrantStore}

pub record AgentState : Type 0 where
  pub heap : Heap
  pub resolved : Heap
  pub key : Option ℕ
  pub last_activity_at : ℕ
  pub unlocked_at : ℕ
  pub idle_timer : Option ℕ
  pub max_age_timer : Option ℕ
  pub idle_ms : ℕ
  pub max_age_ms : ℕ
  pub grants : GrantStore

pub record AgentStatusBody : Type 0 where
  pub locked : Bool
  pub idle_remaining_ms : Option ℕ
  pub max_age_remaining_ms : Option ℕ

pub data StateError : Type 0 where
  locked bad_key_length : StateError

-- The constructor: a fresh agent is locked.
abbrev pub init : ℕ → ℕ → AgentState
init idle_ms max_age_ms = record {
  heap = [];
  resolved = [];
  key = none;
  last_activity_at = 0;
  unlocked_at = 0;
  idle_timer = none;
  max_age_timer = none;
  idle_ms = idle_ms;
  max_age_ms = max_age_ms;
  grants = Grants.empty_store;
}

unfoldable pub clear_idle_timer : AgentState → AgentState
clear_idle_timer s = record s { idle_timer = none }

unfoldable pub clear_max_age_timer : AgentState → AgentState
clear_max_age_timer s = record s { max_age_timer = none }

-- `this.key.fill(0)`, where there is a key.
abbrev pub wiped : Option ℕ → Heap → Heap
wiped none h = h
wiped (some a) h = fill h a

unfoldable pub lock : AgentState → AgentState
lock s = record s {
  idle_timer = none;
  max_age_timer = none;
  heap = wiped s.key s.heap;
  key = none;
  last_activity_at = 0;
  unlocked_at = 0;
  grants = Grants.clear s.grants;
}

abbrev pub has_key : Option ℕ → Bool
has_key none = false
has_key (some a) = true

unfoldable pub enforce_max_age : AgentState → ℕ → AgentState
enforce_max_age s now =
    if not (has_key s.key) || leb s.max_age_ms 0
    then s
    else if leb (s.unlocked_at + s.max_age_ms) now
    then lock s
    else s

unfoldable pub arm_idle_timer : AgentState → ℕ → AgentState
arm_idle_timer s now =
    if not (has_key s.key) || leb s.idle_ms 0
    then record s { idle_timer = none }
    else record s { idle_timer = some (now + s.idle_ms) }

unfoldable pub touch : AgentState → ℕ → AgentState
touch s now =
    if not (has_key s.key) then s else arm_idle_timer (record s { last_activity_at = now }) now

unfoldable pub arm_max_age_timer : AgentState → ℕ → AgentState
arm_max_age_timer s now =
    if not (has_key s.key) || leb s.max_age_ms 0
    then record s { max_age_timer = none }
    else if leb (s.unlocked_at + s.max_age_ms) now
    then lock (record s { max_age_timer = none })
    else record s { max_age_timer = some (now + (s.unlocked_at + s.max_age_ms - now)) }

-- The callback of either timer; the timer that has fired is spent, and `lock` clears both.
unfoldable pub timer_fires : AgentState → AgentState
timer_fires s = lock s

unfoldable pub is_locked : AgentState → ℕ → AgentState × Bool
is_locked s now = let s' = enforce_max_age s now in (s', not (has_key s'.key))

abbrev status_of : AgentState → ℕ → AgentStatusBody
status_of s now =
    if not (has_key s.key)
    then record { locked = true; idle_remaining_ms = none; max_age_remaining_ms = none }
    else record {
      locked = false;
      idle_remaining_ms = some (s.last_activity_at + s.idle_ms - now);
      max_age_remaining_ms = some (s.unlocked_at + s.max_age_ms - now);
    }

unfoldable pub status : AgentState → ℕ → AgentState × AgentStatusBody
status s now = let s' = enforce_max_age s now in (s', status_of s' now)

abbrev pub key_or_throw : Option ℕ → Result StateError ℕ
key_or_throw none = err locked
key_or_throw (some a) = ok a

-- The live buffer itself, and no copy of it.
unfoldable pub require_key : AgentState → ℕ → AgentState × Result StateError ℕ
require_key s now = let s' = enforce_max_age s now in (s', key_or_throw s'.key)

-- `unlock` up to its `await`: with a key it only touches, and the second part says whether it goes
-- on to ask for the key.
unfoldable pub unlock_begin : AgentState → ℕ → AgentState × Bool
unlock_begin s now =
    let s' = enforce_max_age s now in if has_key s'.key then (touch s' now, false) else (s', true)

-- The three statements that follow `this.key = Buffer.from(key)` in both ways to unlock.
unfoldable pub hold : AgentState → Bytes → ℕ → AgentState
hold s key now =
    let held : AgentState = record s {
      heap = alloc s.heap key;
      key = some (length s.heap);
      unlocked_at = now;
    } in
    arm_max_age_timer (touch held now) now

-- `unlock` after its `await`: `key` is what `resolveMasterKey` gave, in a buffer of its own.
unfoldable pub unlock_finish : AgentState → Bytes → ℕ → AgentState × Result StateError (Unit {0})
unlock_finish s key now =
    let r : AgentState = record s { resolved = alloc s.resolved key } in
    if not (length key == 32) then (r, err bad_key_length) else (hold r key now, ok tt)

unfoldable pub unlock_with_key : AgentState → Bytes → ℕ → AgentState × Result StateError (Unit {0})
unlock_with_key s key now = if not (length key == 32) then (s, err bad_key_length) else (
  hold (record s { idle_timer = none; max_age_timer = none; heap = wiped s.key s.heap; key = none })
      key now,
  ok tt,
)
