-- ===== src/Pairing/Channel/Order.antt =====
-- src/sync/pair.ts, LineChannel: what each operation does to the messages that have been handed out
-- or wait to be.
use mathlib.Core.List.{append_assoc, append-nil}
use abracadabra.Common.{
  ℕ, ltb, ◌==◌, true, false, ◌&&◌, not, ◌≡◌, ◌⊎◌, refl, sym, ap, ◌∙◌, Option, none, some, List, [],
  ◌∷◌, ◌++◌, Result, ok, err, inl, inr, Bool-cases, Option-cases,
}
use abracadabra.Common.Json.{Json}
use abracadabra.Pairing.Channel.{
  Line, Msg, ChannelError, LineChannel, max_line_bytes, byte_length, is_blank, message, rejected,
  fail, destroy, deliver, take_lines, check_size, on_data, next, on_timeout, waits, malformed,
  too_large,
}

abbrev pub oks : List (ℕ × Result ChannelError Msg) → List Msg
oks [] = []
oks ((w, ok m) ∷ s) = m ∷ oks s
oks ((w, err e) ∷ s) = oks s

-- What has been handed out, and then what waits to be.
abbrev pub delivered : LineChannel → List Msg
delivered ch = oks ch.settled ++ ch.queue

-- No one waits while there is a message or the socket has failed.
abbrev pub IsFair : LineChannel → Type 0
IsFair ch = (ch.waiters ≡ []) ⊎ ((ch.queue ≡ []) × (ch.closed ≡ none))

append-oks : (s u : List (ℕ × Result ChannelError Msg)) → oks (s ++ u) ≡ oks s ++ oks u
append-oks [] u = refl
append-oks ((w, ok m) ∷ s) u = rw (append-oks s u) refl
append-oks ((w, err e) ∷ s) u = append-oks s u

oks-rejected : (e : ChannelError) (ws : List ℕ) → oks (rejected e ws) ≡ []
oks-rejected e [] = refl
oks-rejected e (w ∷ ws) = oks-rejected e ws

pub delivered-fail : (e : ChannelError) (ch : LineChannel) → delivered (fail e ch) ≡ delivered ch
unfolding fail
delivered-fail e ch = elim (Option-cases ch.closed) [
  | inl p ↦ rw (p, fail, append-oks, oks-rejected, append-nil) refl
  | inr (old, p) ↦ rw (p, fail) refl
]

pub fail-IsFair : (e : ChannelError) (ch : LineChannel) → IsFair ch → IsFair (fail e ch)
unfolding fail
fail-IsFair e ch f = elim (Option-cases ch.closed) [
  | inl p ↦ rw (p, fail) (inl refl)
  | inr (old, p) ↦ rw (p, fail) f
]

delivered-deliver :
    (m : Msg) (ch : LineChannel) → IsFair ch → delivered (deliver m ch) ≡ delivered ch ++ m ∷ []
unfolding deliver
delivered-deliver m ch f = go ch.waiters refl f
  where
    go :
        (ws : List ℕ)
        → ch.waiters ≡ ws
        → IsFair ch
        → delivered (deliver m ch) ≡ delivered ch ++ m ∷ []
    go [] p f = rw (p, deliver) (sym (append_assoc (oks ch.settled) ch.queue (m ∷ [])))
    go (w ∷ ws) p (inl e) = absurd (cc (p, e))
    go (w ∷ ws) p (inr e) = rw (p, deliver, e.0, append-oks, append-nil, append-nil) refl

deliver-IsFair : (m : Msg) (ch : LineChannel) → IsFair ch → IsFair (deliver m ch)
unfolding deliver
deliver-IsFair m ch f = go ch.waiters refl f
  where
    go : (ws : List ℕ) → ch.waiters ≡ ws → IsFair ch → IsFair (deliver m ch)
    go [] p f = rw (p, deliver) (inl p)
    go (w ∷ ws) p (inl e) = absurd (cc (p, e))
    go (w ∷ ws) p (inr e) = rw (p, deliver) (inr e)

pub delivered-next : (w : ℕ) (ch : LineChannel) → delivered (next w ch) ≡ delivered ch
unfolding next
delivered-next w ch = go ch.queue refl
  where
    go : (q : List Msg) → ch.queue ≡ q → delivered (next w ch) ≡ delivered ch
    go (m ∷ ms) p = rw (p, next, append-oks) (append_assoc (oks ch.settled) (m ∷ []) ms)
    go [] p = elim (Option-cases ch.closed) [
      | inl e ↦ rw (p, next, e) (ap (λ (q : List Msg). oks ch.settled ++ q) p)
      | inr (x, e) ↦
          rw (p, next, e, append-oks, append-nil)
            (ap (λ (q : List Msg). oks ch.settled ++ q) p ∙ append-nil (oks ch.settled))
    ]

pub next-IsFair : (w : ℕ) (ch : LineChannel) → IsFair ch → IsFair (next w ch)
unfolding next
next-IsFair w ch f = go ch.queue refl f
  where
    go : (q : List Msg) → ch.queue ≡ q → IsFair ch → IsFair (next w ch)
    go (m ∷ ms) p (inl e) = rw (p, next) (inl e)
    go (m ∷ ms) p (inr e) = absurd (cc (p, e.0))
    go [] p f = elim (Option-cases ch.closed) [
      | inl e ↦ rw (p, next, e) (inr (p, e))
      | inr (x, e) ↦ elim f [ inl g ↦ rw (p, next, e) (inl g) | inr g ↦ absurd (cc (g.1, e)) ]
    ]

pub delivered-on_timeout : (w : ℕ) (ch : LineChannel) → delivered (on_timeout w ch) ≡ delivered ch
unfolding on_timeout
delivered-on_timeout w ch = elim (Bool-cases (waits w ch.waiters)) [
  | inl e ↦ rw (e, append-oks, append-nil) refl
  | inr e ↦ rw e refl
]

pub on_timeout-IsFair : (w : ℕ) (ch : LineChannel) → IsFair ch → IsFair (on_timeout w ch)
unfolding on_timeout
on_timeout-IsFair w ch f = elim (Bool-cases (waits w ch.waiters)) [
  | inl e ↦ rw e (elim f [ inl g ↦ inl (rw g refl) | inr g ↦ inr g ])
  | inr e ↦ rw e f
]

-- The messages of a text: its lines that are not blank, up to the first that is no message.
unfoldable pub parsed : (parse : Line → Option Json) → (line rest : Line) → List Msg
parsed parse line [] = []
parsed parse line (c ∷ rest) = elim (c == 10) [
  | false ↦ parsed parse (line ++ c ∷ []) rest
  | true ↦ elim (is_blank line) [
    | true ↦ parsed parse [] rest
    | false ↦ elim (message (parse line)) [ some m ↦ m ∷ parsed parse [] rest | none ↦ [] ]
  ]
]

module _ (parse : Line → Option Json) where
  take_lines_lem :
      (line rest : Line) (ch : LineChannel)
      → IsFair ch
      → (delivered (take_lines parse line rest ch) ≡ delivered ch ++ parsed parse line rest)
        × IsFair (take_lines parse line rest ch)
  unfolding take_lines parsed destroy
  take_lines_lem line [] ch f = (sym (append-nil (delivered ch)), f)
  take_lines_lem line (c ∷ rest) ch f = elim (Bool-cases (c == 10)) [
    | inr e ↦ rw (e, take_lines, parsed) (take_lines_lem (line ++ c ∷ []) rest ch f)
    | inl e ↦ elim (Bool-cases (is_blank line)) [
      | inl b ↦ rw (e, b, take_lines, parsed) (take_lines_lem [] rest ch f)
      | inr b ↦ elim (Option-cases (message (parse line))) [
        | inl m ↦
            let failed = record ch { buf = rest } in
            rw (e, b, m, take_lines, parsed, destroy, append-nil)
              (delivered-fail malformed failed, fail-IsFair malformed failed f)
        | inr (m, p) ↦
            let after = take_lines_lem [] rest (deliver m ch) (deliver-IsFair m ch f) in
            rw (e, b, p, take_lines, parsed)
              (
                after.0
                    ∙ ap (λ (d : List Msg). d ++ parsed parse [] rest) (delivered-deliver m ch f)
                    ∙ append_assoc (delivered ch) (m ∷ []) (parsed parse [] rest),
                after.1,
              )
      ]
    ]
  ]

  check_size_lem :
      (ch : LineChannel)
      → IsFair ch
      → (delivered (check_size parse ch) ≡ delivered ch) × IsFair (check_size parse ch)
  unfolding destroy
  check_size_lem ch f =
      elim (Bool-cases (not ch.destroyed && ltb max_line_bytes (byte_length ch.buf))) [
        | inl t ↦ rw t (delivered-fail too_large ch, fail-IsFair too_large ch f)
        | inr t ↦ rw t (refl, f)
      ]

  pub on_data_lem :
      (chunk : Line) (ch : LineChannel)
      → IsFair ch
      → ch.destroyed ≡ false
      → (delivered (on_data parse chunk ch) ≡ delivered ch ++ parsed parse [] (ch.buf ++ chunk))
        × IsFair (on_data parse chunk ch)
  unfolding on_data
  on_data_lem chunk ch f d =
      let lem = take_lines_lem [] (ch.buf ++ chunk) ch f in
      let sized = check_size_lem (take_lines parse [] (ch.buf ++ chunk) ch) lem.1 in
      simp d (sized.0 ∙ lem.0, sized.1)
