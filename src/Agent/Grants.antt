-- ===== src/Agent/Grants.antt =====
-- src/agent/grants.ts: the reveal grants that the agent holds in memory.
-- A method takes the time that it reads from the clock, and `add` the id that it draws.
-- A TTL, a device id and an inode are whole numbers, or not finite.
pub mod Invariant
pub mod Timer
pub mod Check
mod Tests
use abracadabra.Common.{
  ℕ, ◌+◌, ◌-◌, ◌*◌, ltb, leb, String, str_eq, Bool, true, false, ◌&&◌, not, if◌then◌else◌, Option,
  none, some, List, [], ◌∷◌, Result, ok, err, length,
}
use abracadabra.Common.Maps
use abracadabra.Common.Maps.{Map}
use abracadabra.Common.Numbers.{Number, nat, is_finite, strict_eq}
use abracadabra.Common.Texts.{trim}

abbrev pub grant_ttl_min_seconds : ℕ
grant_ttl_min_seconds = 60

abbrev pub grant_ttl_max_seconds : ℕ
grant_ttl_max_seconds = 8 * 60 * 60

pub record GrantCaller : Type 0 where
  pub exe : String
  pub dev : Number
  pub ino : Number

pub record Grant : Type 0 where
  pub id : String
  pub project : String
  pub caller : GrantCaller
  pub created_at : ℕ
  pub expires_at : ℕ

pub record GrantListItem : Type 0 where
  pub id : String
  pub project : String
  pub exe : String
  pub remaining_ms : ℕ

pub record GrantCheckResult : Type 0 where
  pub granted : Bool
  pub grant_id : Option String
  pub remaining_ms : Option ℕ

-- The timer is the time at which it is due.
pub record GrantStore : Type 0 where
  pub grants : Map Grant
  pub prune_timer : Option ℕ

-- What the methods throw, each with the code "bad_request".
pub data GrantError : Type 0 where
  bad_ttl project_required bad_caller revoke_target : GrantError

abbrev pub empty_store : GrantStore
empty_store = record { grants = []; prune_timer = none }

unfoldable pub clear_prune_timer : GrantStore → GrantStore
clear_prune_timer s = record s { prune_timer = none }

unfoldable pub clear : GrantStore → GrantStore
unfolding clear_prune_timer
clear s = clear_prune_timer (record s { grants = [] })

pub size : GrantStore → ℕ
size s = length s.grants

abbrev pub sooner : ℕ → Option ℕ → Option ℕ
sooner rem none = some rem
sooner rem (some soonest) = if ltb rem soonest then some rem else some soonest

-- The loop of `nextExpiryMs`, with `soonest` as its variable.
unfoldable pub next_expiry_from : ℕ → Option ℕ → Map Grant → Option ℕ
next_expiry_from now soonest [] = soonest
next_expiry_from now soonest ((id, g) ∷ rest) =
    next_expiry_from now
      (if leb g.expires_at now then soonest else sooner (g.expires_at - now) soonest) rest

unfoldable pub next_expiry_ms : GrantStore → ℕ → Option ℕ
next_expiry_ms s now = next_expiry_from now none s.grants

abbrev due_in : ℕ → Option ℕ → Option ℕ
due_in now none = none
due_in now (some rem) = some (now + rem)

unfoldable pub arm_prune_timer : GrantStore → ℕ → GrantStore
unfolding next_expiry_ms
arm_prune_timer s now = record s { prune_timer = due_in now (next_expiry_ms s now) }

-- The loop of `pruneExpired`: what is left of the map, and `n`.
unfoldable pub prune_loop : ℕ → Map Grant → Map Grant × ℕ
prune_loop now [] = ([], 0)
prune_loop now ((id, g) ∷ rest) =
    let (kept, n) = prune_loop now rest in
    if leb g.expires_at now then (kept, n + 1) else ((id, g) ∷ kept, n)

unfoldable pub prune_expired : GrantStore → ℕ → GrantStore × ℕ
prune_expired s now =
    let (kept, n) = prune_loop now s.grants in
    let s' : GrantStore = record s { grants = kept } in
    if ltb 0 n then (arm_prune_timer s' now, n) else (s', n)

-- The callback of the timer.
pub prune_timer_fires : GrantStore → ℕ → GrantStore
prune_timer_fires s now = arm_prune_timer (prune_expired s now).0 now

abbrev pub ttl_allowed : Number → Bool
ttl_allowed (nat ttl) = leb grant_ttl_min_seconds ttl && leb ttl grant_ttl_max_seconds
ttl_allowed _ = false

abbrev seconds : Number → ℕ
seconds (nat ttl) = ttl
seconds _ = 0

abbrev pub caller_complete : GrantCaller → Bool
caller_complete c = not (str_eq c.exe "") && is_finite c.dev && is_finite c.ino

unfoldable pub add :
    GrantStore → String → GrantCaller → Number → ℕ → String → GrantStore × Result GrantError Grant
add s project caller ttl now id =
    if not (ttl_allowed ttl)
    then (s, err bad_ttl)
    else if str_eq (trim project) ""
    then (s, err project_required)
    else if not (caller_complete caller)
    then (s, err bad_caller)
    else let grant : Grant = record {
      id = id;
      project = trim project;
      caller = caller;
      created_at = now;
      expires_at = now + seconds ttl * 1000;
    } in
      (arm_prune_timer (record s { grants = Maps.set id grant s.grants }) now, ok grant)

list_items : ℕ → Map Grant → List GrantListItem
list_items now [] = []
list_items now ((id, g) ∷ rest) =
    record { id = g.id; project = g.project; exe = g.caller.exe; remaining_ms = g.expires_at - now }
    ∷ list_items now rest

unfoldable pub list : GrantStore → ℕ → GrantStore × List GrantListItem
unfolding list_items
list s now = let (s', n) = prune_expired s now in (s', list_items now s'.grants)

abbrev pub non_empty : Option String → Option String
non_empty none = none
non_empty (some t) = if str_eq t "" then none else some t

abbrev pub or_else : Option String → Option String → Option String
or_else (some a) b = some a
or_else none b = b

-- `opts.all === true`, and the target `opts.grantId ?? opts.id`.
unfoldable pub revoke :
    GrantStore → Bool → Option String → Option String → ℕ → GrantStore × Result GrantError ℕ
revoke s true grant_id id now = (clear s, ok (size s))
revoke s false grant_id id now = elim (non_empty (or_else grant_id id)) [
  | none ↦ (s, err revoke_target)
  | some target ↦
      if Maps.has target s.grants
      then (arm_prune_timer (record s { grants = Maps.delete target s.grants }) now, ok 1)
      else (s, ok 0)
]

-- The tests of one turn of the loop of `check`.
unfoldable pub matches : String → GrantCaller → ℕ → Grant → Bool
matches project caller now g =
    str_eq g.project project
    && str_eq g.caller.exe caller.exe
    && strict_eq g.caller.dev caller.dev
    && strict_eq g.caller.ino caller.ino
    && not (leb g.expires_at now)

abbrev refused : GrantCheckResult
refused = record { granted = false; grant_id = none; remaining_ms = none }

unfoldable pub check_loop : String → GrantCaller → ℕ → Map Grant → GrantCheckResult
check_loop project caller now [] = refused
check_loop project caller now ((id, g) ∷ rest) =
    if matches project caller now g
    then record { granted = true; grant_id = some g.id; remaining_ms = some (g.expires_at - now) }
    else check_loop project caller now rest

unfoldable pub check : GrantStore → String → GrantCaller → ℕ → GrantStore × GrantCheckResult
check s project caller now =
    let (s', n) = prune_expired s now in (s', check_loop project caller now s'.grants)

-- `grantPublicView` copies every field.
pub grant_public_view : Grant → Grant
grant_public_view g = record {
  id = g.id;
  project = g.project;
  caller = record { exe = g.caller.exe; dev = g.caller.dev; ino = g.caller.ino };
  created_at = g.created_at;
  expires_at = g.expires_at;
}
