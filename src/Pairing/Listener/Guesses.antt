-- ===== src/Pairing/Listener/Guesses.antt =====
-- src/sync/pair.ts, pairListen: how many guesses at the PIN a listener takes.
use abracadabra.Common.{
  ℕ, zero, suc, ◌+◌, ◌≤◌, leb, String, Bool, true, false, ◌||◌, ◌≡◌, refl, if◌then◌else◌, some,
  is_some, List, [], ◌∷◌, ok, err, inl, inr, Bool-cases, arith,
}
use abracadabra.Pairing.Listener.{
  Listener, new_listener, Closed, too_many_failures, expired, server_error, session_over, finish,
  has_pin, on_first, Event, first_message, ttl_over, failed, session_done, step, answers, tries,
  sessions, pin_max_failures,
}

-- No hello is answered any more.
abbrev shut : Listener → Bool
shut l = l.busy || is_some l.settled

or_true : (b : Bool) → (b || true) ≡ true
or_true true = refl
or_true false = refl

finish-shut : (c : Closed) (l : Listener) → shut (finish c l) ≡ true
finish-shut c l = elim (Bool-cases (is_some l.settled)) [
  | inl e ↦ rw (e, e) (or_true l.busy)
  | inr e ↦ rw e (or_true l.busy)
]

expire-shut :
    (b : Bool) (l : Listener) → l.busy ≡ b → shut (if b then l else finish expired l) ≡ true
expire-shut true l e = rw e refl
expire-shut false l e = finish-shut expired l

module _ (nfkc : String → String) (pin : String) where
  -- What the rest of a run answers.
  Counts : (most_tries most_sessions : ℕ) → List Event → Listener → Type 0
  Counts n k es l = (tries (answers nfkc pin es l) ≤ n) × (sessions (answers nfkc pin es l) ≤ k)

  shut-Counts : (es : List Event) (l : Listener) → shut l ≡ true → Counts 0 0 es l
  unfolding Counts step on_first
  shut-Counts [] l h = (omega arith, omega arith)
  shut-Counts (first_message (err e) ∷ es) l h = shut-Counts es l h
  shut-Counts (first_message (ok m) ∷ es) l h = simp h (shut-Counts es l h)
  shut-Counts (ttl_over ∷ es) l h = shut-Counts es _ (expire-shut l.busy l refl)
  shut-Counts (failed ∷ es) l h = shut-Counts es _ (finish-shut server_error l)
  shut-Counts (session_done r ∷ es) l h = shut-Counts es _ (finish-shut (session_over r) l)

  more-Counts :
      {n k i j : ℕ} (es : List Event) (l : Listener)
      → n ≤ i
      → k ≤ j
      → Counts n k es l
      → Counts i j es l
  unfolding Counts
  more-Counts es l a b h = (omega (arith, a, h.0), omega (arith, b, h.1))

  open-Counts :
      (es : List Event) (l : Listener) (n : ℕ)
      → l.busy ≡ false
      → is_some l.settled ≡ false
      → l.fail_count + suc n ≡ pin_max_failures
      → Counts (suc n) 1 es l
  unfolding Counts step on_first
  open-Counts [] l n b s e = (omega arith, omega arith)
  open-Counts (first_message (err x) ∷ es) l n b s e = open-Counts es l n b s e
  open-Counts (first_message (ok m) ∷ es) l n b s e = elim (Bool-cases (has_pin nfkc pin m)) [
    | inl p ↦
        let none_left = shut-Counts es (record l { busy = true }) refl in
        simp (b, s, p) (omega (arith, none_left.0), omega (arith, none_left.1))
    | inr p ↦ wrong n e p (λ k d. open-Counts es after k refl s d)
  ]
    where
      after : Listener
      after = record l { fail_count = suc l.fail_count; busy = false }

      wrong :
          (k : ℕ)
          → l.fail_count + suc k ≡ pin_max_failures
          → has_pin nfkc pin m ≡ false
          → ((j : ℕ) → suc l.fail_count + suc j ≡ pin_max_failures → Counts (suc j) 1 es after)
          → Counts (suc k) 1 (first_message (ok m) ∷ es) l
      wrong zero d p on =
          let full : leb pin_max_failures (suc l.fail_count) ≡ true = ground arith in
          let none_left = shut-Counts es (record after { settled = some too_many_failures }) refl in
          simp (b, s, p, full) (omega (arith, none_left.0), omega (arith, none_left.1))
      wrong (suc k) d p on =
          let more : leb pin_max_failures (suc l.fail_count) ≡ false = ground arith in
          let rest = on k (omega (arith, d)) in simp (b, s, p, more) (omega (arith, rest.0), rest.1)
  open-Counts (ttl_over ∷ es) l n b s e =
      more-Counts es _ (omega arith) (omega arith) (shut-Counts es _ (expire-shut l.busy l refl))
  open-Counts (failed ∷ es) l n b s e =
      more-Counts es _ (omega arith) (omega arith) (shut-Counts es _ (finish-shut server_error l))
  open-Counts (session_done r ∷ es) l n b s e =
      more-Counts es _ (omega arith) (omega arith)
        (shut-Counts es _ (finish-shut (session_over r) l))

  -- A listener answers at most eight guesses at the PIN in all, the right one included, and begins at
  -- most one session, whatever connections come, in whatever order, and whenever it expires.
  pub answers_bound :
      (es : List Event)
      → (tries (answers nfkc pin es new_listener) ≤ pin_max_failures)
        × (sessions (answers nfkc pin es new_listener) ≤ 1)
  unfolding Counts
  answers_bound es = open-Counts es new_listener 7 refl refl refl
