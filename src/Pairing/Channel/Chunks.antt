-- ===== src/Pairing/Channel/Chunks.antt =====
-- src/sync/pair.ts, LineChannel: the messages of a socket, whatever chunks they come in, and whatever
-- the waiters, their timers and the end of the socket do meanwhile.
use mathlib.Core.List.{append_assoc, append-nil}
use abracadabra.Common.{
  ℕ, ltb, ◌==◌, false, ◌&&◌, not, ◌≡◌, refl, sym, ap, ◌∙◌, Option, List, [], ◌∷◌, ◌++◌, inl, inr,
  Bool-cases, Option-cases,
}
use abracadabra.Common.Json.{Json}
use abracadabra.Pairing.Channel.{
  Line, Msg, ChannelError, LineChannel, open_channel, max_line_bytes, byte_length, is_blank,
  message, fail, destroy, deliver, take_lines, check_size, on_data, on_end, next, on_timeout, waits,
  disconnected,
}
use abracadabra.Pairing.Channel.Order.{
  delivered, IsFair, parsed, on_data_lem, delivered-fail, fail-IsFair, delivered-next, next-IsFair,
  delivered-on_timeout, on_timeout-IsFair,
}

-- What a channel meets: a chunk, the end of the socket, a call of `next`, and a timer.
pub data Event : Type 0 where
  data_in : Line → Event
  ended : Event
  asked timer : ℕ → Event

unfoldable NoBreak : Line → Type 0
NoBreak [] = Unit
NoBreak (c ∷ s) = ((c == 10) ≡ false) × NoBreak s

append-NoBreak : (s : Line) (c : ℕ) → NoBreak s → (c == 10) ≡ false → NoBreak (s ++ c ∷ [])
unfolding NoBreak
append-NoBreak [] c n e = (e, tt)
append-NoBreak (x ∷ s) c n e = (n.0, append-NoBreak s c n.1 e)

-- What is not about reading leaves the buffer and the socket as they are.
Keeps : LineChannel → LineChannel → Type 0
Keeps after ch = (after.destroyed ≡ ch.destroyed) × (after.buf ≡ ch.buf)

fail-Keeps : (e : ChannelError) (ch : LineChannel) → Keeps (fail e ch) ch
unfolding fail Keeps
fail-Keeps e ch = elim (Option-cases ch.closed) [
  | inl p ↦ rw p (refl, refl)
  | inr (o, p) ↦ rw p (refl, refl)
]

next-Keeps : (w : ℕ) (ch : LineChannel) → Keeps (next w ch) ch
unfolding next Keeps
next-Keeps w ch = go ch.queue refl
  where
    go : (q : List Msg) → ch.queue ≡ q → Keeps (next w ch) ch
    go (m ∷ ms) p = rw (p, next) (refl, refl)
    go [] p = elim (Option-cases ch.closed) [
      | inl e ↦ rw (p, next, e) (refl, refl)
      | inr (x, e) ↦ rw (p, next, e) (refl, refl)
    ]

on_timeout-Keeps : (w : ℕ) (ch : LineChannel) → Keeps (on_timeout w ch) ch
unfolding on_timeout Keeps
on_timeout-Keeps w ch = elim (Bool-cases (waits w ch.waiters)) [
  | inl e ↦ rw e (refl, refl)
  | inr e ↦ rw e (refl, refl)
]

abbrev pub text : List Event → Line
text [] = []
text (data_in chunk ∷ es) = chunk ++ text es
text (ended ∷ es) = text es
text (asked w ∷ es) = text es
text (timer w ∷ es) = text es

module _ (parse : Line → Option Json) where
  abbrev pub step : Event → LineChannel → LineChannel
  step (data_in chunk) ch = on_data parse chunk ch
  step ended ch = on_end ch
  step (asked w) ch = next w ch
  step (timer w) ch = on_timeout w ch

  abbrev pub run : List Event → LineChannel → LineChannel
  run [] ch = ch
  run (e ∷ es) ch = run es (step e ch)

  parsed-append :
      (line s more : Line)
      → NoBreak s
      → parsed parse line (s ++ more) ≡ parsed parse (line ++ s) more
  unfolding parsed NoBreak
  parsed-append line [] more n = rw (append-nil line) refl
  parsed-append line (c ∷ s) more n =
      rw (n.0, parsed, ← append_assoc line (c ∷ []) s) (parsed-append (line ++ c ∷ []) s more n.1)

  -- A channel that is not destroyed keeps the last line, and the rest has been read.
  Reads : (line rest : Line) → LineChannel → Type 0
  Reads line rest after =
      NoBreak after.buf
      × ((more : Line)
          → parsed parse line (rest ++ more)
            ≡ parsed parse line rest ++ parsed parse after.buf more)

  take_lines-Reads :
      (line rest : Line) (ch : LineChannel)
      → NoBreak line
      → (take_lines parse line rest ch).destroyed ≡ false
      → Reads line rest (take_lines parse line rest ch)
  unfolding take_lines parsed destroy Reads NoBreak
  take_lines-Reads line [] ch n = λ d. (n, λ more. refl)
  take_lines-Reads line (c ∷ rest) ch n = elim (Bool-cases (c == 10)) [
    | inr e ↦
        rw (e, take_lines, parsed)
          (take_lines-Reads (line ++ c ∷ []) rest ch (append-NoBreak line c n e))
    | inl e ↦ elim (Bool-cases (is_blank line)) [
      | inl b ↦ rw (e, b, take_lines, parsed) (take_lines-Reads [] rest ch tt)
      | inr b ↦ elim (Option-cases (message (parse line))) [
        | inl m ↦ rw (e, b, m, take_lines, parsed, destroy) (λ d. absurd (cc d))
        | inr (m, p) ↦
            rw (e, b, p, take_lines, parsed)
              (λ d.
                let r = take_lines-Reads [] rest (deliver m ch) tt d in
                (r.0, λ more. ap (λ (ms : List Msg). m ∷ ms) (r.1 more)))
      ]
    ]
  ]

  check_size-kept :
      (ch : LineChannel) → (check_size parse ch).destroyed ≡ false → check_size parse ch ≡ ch
  unfolding destroy
  check_size-kept ch =
      elim (Bool-cases (not ch.destroyed && ltb max_line_bytes (byte_length ch.buf))) [
        | inl t ↦ rw t (λ d. absurd (cc d))
        | inr t ↦ rw t (λ d. refl)
      ]

  on_data-Reads :
      (chunk : Line) (ch : LineChannel)
      → (on_data parse chunk ch).destroyed ≡ false
      → (ch.destroyed ≡ false) × Reads [] (ch.buf ++ chunk) (on_data parse chunk ch)
  unfolding on_data NoBreak
  on_data-Reads chunk ch = elim (Bool-cases ch.destroyed) [
    | inl d ↦ simp d (λ h. absurd (cc h))
    | inr d ↦
        let after = take_lines parse [] (ch.buf ++ chunk) ch in
        simp d (λ h. rw (check_size-kept after h) (
          refl,
          take_lines-Reads [] (ch.buf ++ chunk) ch tt
              (ap (λ (c : LineChannel). c.destroyed) (sym (check_size-kept after h)) ∙ h),
        ))
  ]

  destroyed_stays :
      (e : Event) (ch : LineChannel) → (step e ch).destroyed ≡ false → ch.destroyed ≡ false
  unfolding Keeps on_end
  destroyed_stays (data_in chunk) ch h = (on_data-Reads chunk ch h).0
  destroyed_stays ended ch h = sym (fail-Keeps disconnected ch).0 ∙ h
  destroyed_stays (asked w) ch h = sym (next-Keeps w ch).0 ∙ h
  destroyed_stays (timer w) ch h = sym (on_timeout-Keeps w ch).0 ∙ h

  run-destroyed :
      (es : List Event) (ch : LineChannel) → (run es ch).destroyed ≡ false → ch.destroyed ≡ false
  run-destroyed [] ch h = h
  run-destroyed (e ∷ es) ch h = destroyed_stays e ch (run-destroyed es (step e ch) h)

  -- A step that only hands messages out.
  quiet_step :
      (after ch : LineChannel) (s : Line)
      → Keeps after ch
      → delivered after ≡ delivered ch
      → {l : List Msg} → l ≡ delivered after ++ parsed parse after.buf s
      → l ≡ delivered ch ++ parsed parse ch.buf s
  unfolding Keeps
  quiet_step after ch s k d h = rw (← d, ← k.1) h

  run_lem :
      (es : List Event) (ch : LineChannel)
      → IsFair ch
      → NoBreak ch.buf
      → (run es ch).destroyed ≡ false
      → delivered (run es ch) ≡ delivered ch ++ parsed parse ch.buf (text es)
  unfolding Keeps on_end parsed Reads
  run_lem [] ch f n d = sym (append-nil (delivered ch))
  run_lem (data_in chunk ∷ es) ch f n d =
      let after = on_data parse chunk ch in
      let kept = run-destroyed es after d in
      let r = on_data-Reads chunk ch kept in
      let lem = on_data_lem parse chunk ch f r.0 in
      let lines = parsed parse [] (ch.buf ++ chunk) in
      let onto = λ (ms : List Msg). delivered ch ++ ms in
      run_lem es after lem.1 r.1.0 d
      ∙ ap (λ (ms : List Msg). ms ++ parsed parse after.buf (text es)) lem.0
      ∙ append_assoc (delivered ch) lines (parsed parse after.buf (text es))
      ∙ ap onto (
          sym (r.1.1 (text es))
          ∙ ap (parsed parse []) (append_assoc ch.buf chunk (text es))
          ∙ parsed-append [] ch.buf (chunk ++ text es) n)
  run_lem (ended ∷ es) ch f n d =
      let k = fail-Keeps disconnected ch in
      quiet_step (on_end ch) ch (text es) k (delivered-fail disconnected ch)
        (run_lem es (on_end ch) (fail-IsFair disconnected ch f) (rw k.1 n) d)
  run_lem (asked w ∷ es) ch f n d =
      let k = next-Keeps w ch in
      quiet_step (next w ch) ch (text es) k (delivered-next w ch)
        (run_lem es (next w ch) (next-IsFair w ch f) (rw k.1 n) d)
  run_lem (timer w ∷ es) ch f n d =
      let k = on_timeout-Keeps w ch in
      quiet_step (on_timeout w ch) ch (text es) k (delivered-on_timeout w ch)
        (run_lem es (on_timeout w ch) (on_timeout-IsFair w ch f) (rw k.1 n) d)

  -- A channel whose socket has not been destroyed has handed out, in order, the messages of all the
  -- text that came, each once, or keeps them to be handed out, whatever the chunks, the calls of
  -- `next`, the timers and the end of the socket: the messages are those of the lines, the text read
  -- as a whole.
  pub run-delivered :
      (es : List Event)
      → (run es open_channel).destroyed ≡ false
      → delivered (run es open_channel) ≡ parsed parse [] (text es)
  unfolding NoBreak
  run-delivered es d = run_lem es open_channel (inl refl) tt d
