-- ===== src/Pairing/Listener/Tests.antt =====
-- Tests of src/sync/pair.ts, pairListen.
use abracadabra.Common.{◌≤◌, ◌≡◌, refl, String, List, [], ◌∷◌, ok, err}
use abracadabra.Common.Json.{str, end, member, field}
use abracadabra.Pairing.Channel.{Msg, disconnected}
use abracadabra.Pairing.Listener.{
  Event, first_message, ttl_over, new_listener, answers, tries, sessions, silence, invalid_pin,
  session, listener_busy, nothing, step, on_first, has_pin, timing_safe_pin,
}
use abracadabra.Pairing.Listener.Guesses.{answers_bound}

abbrev guess : String → Msg
guess pin = record { t = "hello"; members = member "t" (str "hello") (member "pin" (str pin) end) }

abbrev events : List Event
events =
    first_message (err disconnected)
    ∷ first_message (ok (guess "000000"))
    ∷ first_message (ok (guess "123456"))
    ∷ first_message (ok (guess "123456"))
    ∷ ttl_over
    ∷ []

answers_test :
    answers (λ s. s) "123456" events new_listener
    ≡ silence ∷ invalid_pin ∷ session ∷ listener_busy ∷ nothing ∷ []
unfolding step on_first has_pin timing_safe_pin field
answers_test = refl

answers_bound_example :
    (tries (answers (λ s. s) "123456" events new_listener) ≤ 8)
    × (sessions (answers (λ s. s) "123456" events new_listener) ≤ 1)
answers_bound_example = answers_bound (λ s. s) "123456" events
