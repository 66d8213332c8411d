-- ===== src/Pairing/Channel/Tests.antt =====
-- Tests of src/sync/pair.ts, LineChannel.
use abracadabra.Common.{
  ℕ, ◌==◌, if◌then◌else◌, Bool, true, false, ◌≡◌, refl, Option, none, some, List, [], ◌∷◌, ◌++◌,
  Result, ok, err,
}
use abracadabra.Common.Json.{Json, str, obj, Members, end, member, null}
use abracadabra.Pairing.Channel.{
  Line, Msg, open_channel, take_lines, on_data, on_end, next, on_timeout, fail, destroy, deliver,
  is_blank, byte_length, timed_out,
}
use abracadabra.Pairing.Channel.Order.{delivered, parsed}
use abracadabra.Pairing.Channel.Chunks.{
  Event, data_in, ended, asked, timer, run, text, run-delivered,
}

abbrev hello : Members
hello = member "t" (str "hello") end

-- A line of one `h` is a hello, and no other is a message.
abbrev parse : Line → Option Json
parse (c ∷ []) = if c == b'h' then some (obj hello) else some null
parse _ = some null

abbrev events : List Event
events =
    asked 1
    ∷ data_in (b'h' ∷ [])
    ∷ timer 1
    ∷ data_in (b'\n' ∷ b' ' ∷ b'\n' ∷ b'h' ∷ b'\n' ∷ b'h' ∷ [])
    ∷ asked 2
    ∷ ended
    ∷ asked 3
    ∷ []

abbrev hello_msg : Msg
hello_msg = record { t = "hello"; members = hello }

run_settled :
    (run parse events open_channel).settled
    ≡ (1, err timed_out) ∷ (2, ok hello_msg) ∷ (3, ok hello_msg) ∷ []
unfolding on_data on_end next on_timeout fail destroy deliver take_lines is_blank byte_length
    abracadabra.Common.Texts.is_space abracadabra.Common.Json.field
run_settled = refl

run-delivered_example : delivered (run parse events open_channel) ≡ parsed parse [] (text events)
unfolding on_data on_end next on_timeout fail destroy deliver take_lines is_blank byte_length
    abracadabra.Common.Texts.is_space abracadabra.Common.Json.field
run-delivered_example = run-delivered parse events refl
