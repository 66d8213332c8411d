-- ===== src/Pairing/Channel.antt =====
-- src/sync/pair.ts: LineChannel, messages as lines of JSON over a socket. A text is the list of its
-- code points, and `parse` is JSON.parse. A waiting `next` is named by its timer; `settled` logs how
-- each came out, in order. What is sent is kept by the pairing itself (Session).
pub mod Order
pub mod Chunks
mod Tests
use abracadabra.Common.{
  ℕ, ◌+◌, leb, ltb, ◌==◌, String, Bool, true, false, ◌&&◌, ◌||◌, not, if◌then◌else◌, Option, none,
  some, List, [], ◌∷◌, ◌++◌, Result, ok, err,
}
use abracadabra.Common.Texts.{is_space}
use abracadabra.Common.Json.{Json, str, obj, Members, field}

abbrev pub Line : Type 0
Line = List ℕ

pub record Msg : Type 0 where
  pub t : String
  pub members : Members

pub data ChannelError : Type 0 where
  disconnected malformed too_large timed_out : ChannelError

pub record LineChannel : Type 0 where
  pub buf : Line
  pub queue : List Msg
  pub waiters : List ℕ
  pub closed : Option ChannelError
  pub destroyed : Bool
  pub settled : List (ℕ × Result ChannelError Msg)

abbrev pub open_channel : LineChannel
open_channel = record {
  buf = [];
  queue = [];
  waiters = [];
  closed = none;
  destroyed = false;
  settled = [];
}

abbrev pub max_line_bytes : ℕ
max_line_bytes = 16384

-- The bytes of a text in UTF-8.
unfoldable pub byte_length : Line → ℕ
byte_length [] = 0
byte_length (c ∷ s) =
    (if ltb c 128 then 1 else if ltb c 2048 then 2 else if ltb c 65536 then 3 else 4)
    + byte_length s

-- `!line.trim()`
unfoldable pub is_blank : Line → Bool
is_blank [] = true
is_blank (c ∷ s) = is_space c && is_blank s

-- An object with a text `t`.
abbrev pub message : Option Json → Option Msg
message (some (obj ms)) = elim (field "t" ms) [
  | some (str t) ↦ some (record { t = t; members = ms })
  | _ ↦ none
]
message _ = none

-- The waiters of a socket that has failed are rejected, in order.
abbrev pub rejected : ChannelError → List ℕ → List (ℕ × Result ChannelError Msg)
rejected e [] = []
rejected e (w ∷ ws) = (w, err e) ∷ rejected e ws

unfoldable pub fail : ChannelError → LineChannel → LineChannel
fail e ch = elim ch.closed [
  | some old ↦ ch
  | none ↦ record ch {
    closed = some e;
    settled = ch.settled ++ rejected e ch.waiters;
    waiters = [];
  }
]

unfoldable pub destroy : LineChannel → LineChannel
destroy ch = record ch { destroyed = true }

-- A message goes to the first waiter, or to the queue.
unfoldable pub deliver : Msg → LineChannel → LineChannel
deliver m ch = elim ch.waiters [
  | [] ↦ record ch { queue = ch.queue ++ m ∷ [] }
  | w ∷ ws ↦ record ch { waiters = ws; settled = ch.settled ++ (w, ok m) ∷ [] }
]

module _ (parse : Line → Option Json) where
  -- The loop of `onData`: `line` is what has been read of the line, and the rest of the buffer
  -- follows.
  unfoldable pub take_lines : (line rest : Line) → LineChannel → LineChannel
  take_lines line [] ch = record ch { buf = line }
  take_lines line (c ∷ rest) ch = elim (c == 10) [
    | false ↦ take_lines (line ++ c ∷ []) rest ch
    | true ↦ elim (is_blank line) [
      | true ↦ take_lines [] rest ch
      | false ↦ elim (message (parse line)) [
        | some m ↦ take_lines [] rest (deliver m ch)
        | none ↦ destroy (fail malformed (record ch { buf = rest }))
      ]
    ]
  ]

  abbrev pub check_size : LineChannel → LineChannel
  check_size ch =
      if not ch.destroyed && ltb max_line_bytes (byte_length ch.buf)
      then destroy (fail too_large ch)
      else ch

  -- A socket that has been destroyed emits no data.
  unfoldable pub on_data : Line → LineChannel → LineChannel
  on_data chunk ch = if ch.destroyed then ch else check_size (take_lines [] (ch.buf ++ chunk) ch)

-- The socket's `end`, `close` and `error`.
unfoldable pub on_end : LineChannel → LineChannel
on_end ch = fail disconnected ch

unfoldable pub next : ℕ → LineChannel → LineChannel
next w ch = elim ch.queue [
  | m ∷ ms ↦ record ch { queue = ms; settled = ch.settled ++ (w, ok m) ∷ [] }
  | [] ↦ elim ch.closed [
    | some e ↦ record ch { settled = ch.settled ++ (w, err e) ∷ [] }
    | none ↦ record ch { waiters = ch.waiters ++ w ∷ [] }
  ]
]

abbrev pub remove : ℕ → List ℕ → List ℕ
remove w [] = []
remove w (v ∷ ws) = if v == w then remove w ws else v ∷ remove w ws

abbrev pub waits : ℕ → List ℕ → Bool
waits w [] = false
waits w (v ∷ ws) = v == w || waits w ws

-- The timer of a waiter that has been settled is cleared, or its `reject` comes too late.
unfoldable pub on_timeout : ℕ → LineChannel → LineChannel
on_timeout w ch =
    if waits w ch.waiters
    then record ch {
      waiters = remove w ch.waiters;
      settled = ch.settled ++ (w, err timed_out) ∷ [];
    }
    else ch
