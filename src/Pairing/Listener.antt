-- ===== src/Pairing/Listener.antt =====
-- src/sync/pair.ts, pairListen: the listener and the connections that come in. The session of the
-- connection with the PIN is Session's; TLS, the address and what is shown are left out.
pub mod Guesses
mod Tests
use abracadabra.Common.{
  ℕ, zero, suc, ◌+◌, ◌≤◌, leb, String, str_eq, eq_iff, Bool, true, false, ◌&&◌, ◌||◌, not, ◌≡◌, ◌⊎◌,
  refl, if◌then◌else◌, Option, none, some, is_some, List, [], ◌∷◌, Result, ok, err, inl, inr,
  Bool-cases, arith,
}
use abracadabra.Common.Json.{Json, field, as_string}
use abracadabra.Core.Vault.{SyncPeer}
use abracadabra.Pairing.Channel.{Msg, ChannelError}
use abracadabra.Pairing.Session.{Abort, PairResult}

abbrev pub pin_max_failures : ℕ
pin_max_failures = 8

-- Why the listener is over.
pub data Closed : Type 0 where
  too_many_failures expired server_error : Closed
  session_over : Result Abort PairResult → Closed

pub record Listener : Type 0 where
  pub fail_count : ℕ
  pub busy : Bool
  pub settled : Option Closed

abbrev pub new_listener : Listener
new_listener = record { fail_count = 0; busy = false; settled = none }

-- What a connection gets: an error, the end, or the session.
pub data Answer : Type 0 where
  nothing listener_busy silence invalid_pin session : Answer

abbrev pub finish : Closed → Listener → Listener
finish c l = if is_some l.settled then l else record l { settled = some c }

pub data Event : Type 0 where
  first_message : Result ChannelError Msg → Event
  ttl_over : Event
  failed : Event
  session_done : Result Abort PairResult → Event

module _ (nfkc : String → String) (pin : String) where
  -- `timingSafePin` on the same text, after `normalize("NFKC")`.
  unfoldable pub timing_safe_pin : String → Bool
  timing_safe_pin provided = str_eq pin (nfkc provided)

  unfoldable pub has_pin : Msg → Bool
  has_pin first = elim (as_string (field "pin" first.members)) [
    | none ↦ false
    | some provided ↦ str_eq first.t "hello" && timing_safe_pin provided
  ]

  -- The first message of a connection, which was let in. The timer of the listener is cleared when
  -- a session begins.
  unfoldable pub on_first : Result ChannelError Msg → Listener → Listener × Answer
  on_first (err e) l = (l, silence)
  on_first (ok first) l =
      if l.busy || is_some l.settled
      then (l, listener_busy)
      else if has_pin first
      then (record l { busy = true }, session)
      else let failed = record l { fail_count = suc l.fail_count } in
        (
          if leb pin_max_failures failed.fail_count
              then finish too_many_failures failed
              else failed,
          invalid_pin,
        )

  unfoldable pub step : Event → Listener → Listener × Answer
  step (first_message r) l = on_first r l
  step ttl_over l = (if l.busy then l else finish expired l, nothing)
  step failed l = (finish server_error l, nothing)
  step (session_done r) l = (finish (session_over r) l, nothing)

  abbrev pub answers : List Event → Listener → List Answer
  answers [] l = []
  answers (e ∷ es) l = (step e l).1 ∷ answers es (step e l).0

-- Whether a new connection is let in, to say its hello.
unfoldable pub lets_in : Listener → Bool
lets_in l = not (l.busy || is_some l.settled)

-- The guesses that were answered, and the sessions that began.
abbrev pub tries : List Answer → ℕ
tries [] = 0
tries (invalid_pin ∷ rest) = 1 + tries rest
tries (session ∷ rest) = 1 + tries rest
tries (nothing ∷ rest) = tries rest
tries (listener_busy ∷ rest) = tries rest
tries (silence ∷ rest) = tries rest

abbrev pub sessions : List Answer → ℕ
sessions [] = 0
sessions (session ∷ rest) = 1 + sessions rest
sessions (invalid_pin ∷ rest) = sessions rest
sessions (nothing ∷ rest) = sessions rest
sessions (listener_busy ∷ rest) = sessions rest
sessions (silence ∷ rest) = sessions rest
