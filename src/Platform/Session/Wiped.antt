-- ===== src/Platform/Session/Wiped.antt =====
-- src/platform/session.ts: what is left of the keys that a process had cached.
use abracadabra.Common.{
  ℕ, ◌==◌, ltb, ==_iff, ◌≡◌, ◌≢◌, ◌<◌, refl, ap, ◌∙◌, Option, none, some, List, [], ◌∷◌, length,
  length-append, arith, inl, inr, Bool-cases,
}
use abracadabra.Agent.Buffers.{
  Bytes, Heap, alloc, read, IsZero, read-fill_self, read-fill_ne, read-alloc_old, length-fill,
}
use abracadabra.Platform.Session.{
  Session, dropped, has_key, zero_and_drop, lock_session, is_session_unlocked,
  get_session_master_key, unlock_session, SessionCall, creates, unlocks, looks, locks, step, run,
  fresh, WasCached,
}

-- The cached key is a buffer of the heap.
IsBounded : Session → Type 0
IsBounded s = (a : ℕ) → s.cached_master_key ≡ some a → a < length s.heap

-- A buffer that the session is done with, or has.
record Handled (a : ℕ) (s : Session) : Type 0 where
  within : a < length s.heap
  zeroed : s.cached_master_key ≢ some a → IsZero (read s.heap a)

length-dropped : (k : Option ℕ) (h : Heap) → length (dropped k h) ≡ length h
length-dropped none h = refl
length-dropped (some k) h = length-fill h k

dropped-IsZero :
    (a : ℕ) (h : Heap) (k : Option ℕ)
    → (k ≢ some a → IsZero (read h a))
    → IsZero (read (dropped k h) a)
dropped-IsZero a h none c = c (λ e. absurd (cc))
dropped-IsZero a h (some k) c = elim (Bool-cases (k == a)) [
  | inl e ↦ rw ((==_iff k a).0 e) (read-fill_self h a)
  | inr e ↦ rw (read-fill_ne h k a (λ p. ground (arith, e, p))) (c (λ p. ground (arith, e, p)))
]

lock_session-IsZero : (a : ℕ) (s : Session) → Handled a s → IsZero (read (lock_session s).heap a)
unfolding lock_session zero_and_drop
lock_session-IsZero a s c = dropped-IsZero a s.heap s.cached_master_key c.zeroed

lock_session-Handled : (a : ℕ) (s : Session) → Handled a s → Handled a (lock_session s)
unfolding lock_session zero_and_drop
lock_session-Handled a s c = record {
  within = rw (length-dropped s.cached_master_key s.heap) (c.within);
  zeroed = λ n. dropped-IsZero a s.heap s.cached_master_key c.zeroed;
}

lock_session-IsBounded : (s : Session) → IsBounded (lock_session s)
unfolding lock_session zero_and_drop IsBounded
lock_session-IsBounded s a e = absurd (cc)

-- Looking at a session leaves it or locks it.
is_session_unlocked_ind :
    (P : Session → Type 0) (s : Session) (now : ℕ)
    → P s
    → P (lock_session s)
    → P (is_session_unlocked s now).0
unfolding is_session_unlocked
is_session_unlocked_ind P s now p q = elim (Bool-cases (has_key s.cached_master_key)) [
  | inl e ↦ elim (Bool-cases (ltb s.unlock_expires_at now)) [
    | inl f ↦ rw (e, f) q
    | inr f ↦ rw (e, f) p
  ]
  | inr e ↦ rw e p
]

alloc-Handled :
    (a : ℕ) (s : Session) (key : Bytes)
    → Handled a s
    → Handled a (record s { heap = alloc s.heap key })
alloc-Handled a s key c = record {
  within = omega (arith, c.within, length-append s.heap (key ∷ []));
  zeroed = λ n. rw (read-alloc_old s.heap key a (λ e. omega (arith, c.within))) (c.zeroed n);
}

unlock_session-Handled :
    (a : ℕ) (s : Session) (place ttl now : ℕ)
    → Handled a s
    → Handled a (unlock_session s place ttl now).0
unfolding unlock_session zero_and_drop
unlock_session-Handled a s place ttl now c =
    let h = dropped s.cached_master_key s.heap in
    let le : a < length h = rw (length-dropped s.cached_master_key s.heap) (c.within) in
    elim (Bool-cases (length (read s.heap place) == 32)) [
      | inl e ↦ rw e (record {
        within = omega (arith, le, length-append h (read h place ∷ []));
        zeroed = λ n.
            rw (read-alloc_old h (read h place) a (λ p. omega (arith, le)))
              (dropped-IsZero a s.heap s.cached_master_key c.zeroed);
      })
      | inr e ↦ rw e c
    ]

unlock_session-IsBounded :
    (s : Session) (place ttl now : ℕ) → IsBounded s → IsBounded (unlock_session s place ttl now).0
unfolding unlock_session zero_and_drop IsBounded
unlock_session-IsBounded s place ttl now b =
    let h = dropped s.cached_master_key s.heap in
    elim (Bool-cases (length (read s.heap place) == 32)) [
      | inl e ↦ rw e (λ a p.
          let q : length h ≡ a = cc (p) in omega (arith, q, length-append h (read h place ∷ [])))
      | inr e ↦ rw e b
    ]

step-Handled : (a : ℕ) (s : Session) (c : SessionCall) → Handled a s → Handled a (step s c)
unfolding get_session_master_key
step-Handled a s (creates key) h = alloc-Handled a s key h
step-Handled a s (unlocks place ttl now) h = unlock_session-Handled a s place ttl now h
step-Handled a s (looks now) h =
    is_session_unlocked_ind (Handled a) s now h (lock_session-Handled a s h)
step-Handled a s locks h = lock_session-Handled a s h

step-IsBounded : (s : Session) (c : SessionCall) → IsBounded s → IsBounded (step s c)
unfolding get_session_master_key IsBounded
step-IsBounded s (creates key) b = λ a e. omega (arith, b a e, length-append s.heap (key ∷ []))
step-IsBounded s (unlocks place ttl now) b = unlock_session-IsBounded s place ttl now b
step-IsBounded s (looks now) b =
    is_session_unlocked_ind IsBounded s now b (lock_session-IsBounded s)
step-IsBounded s locks b = lock_session-IsBounded s

run-Handled : (a : ℕ) (s : Session) (cs : List SessionCall) → Handled a s → Handled a (run s cs)
run-Handled a s [] h = h
run-Handled a s (c ∷ cs) h = run-Handled a (step s c) cs (step-Handled a s c h)

cached-Handled : (a : ℕ) (s : Session) → IsBounded s → s.cached_master_key ≡ some a → Handled a s
unfolding IsBounded
cached-Handled a s b e = record { within = b a e; zeroed = λ n. absurd (n e) }

WasCached-Handled :
    (a : ℕ) (s : Session) (cs : List SessionCall)
    → IsBounded s
    → WasCached a s cs
    → Handled a (run s cs)
WasCached-Handled a s [] b w = absurd w
WasCached-Handled a s (c ∷ cs) b (inl e) =
    run-Handled a (step s c) cs (cached-Handled a (step s c) (step-IsBounded s c b) e)
WasCached-Handled a s (c ∷ cs) b (inr w) =
    WasCached-Handled a (step s c) cs (step-IsBounded s c b) w

fresh-IsBounded : IsBounded fresh
unfolding IsBounded
fresh-IsBounded a e = absurd (cc)

-- Whatever a process has done with its session, after lockSession no key is cached, and every
-- buffer that was the session's cached key after any of the calls holds zeros. It says nothing of
-- the buffers that callers pass to unlockSession, which copies them.
pub lock_session-run :
    (cs : List SessionCall)
    → ((lock_session (run fresh cs)).cached_master_key ≡ none)
      × ((a : ℕ) → WasCached a fresh cs → IsZero (read (lock_session (run fresh cs)).heap a))
lock_session-run cs = (
  unfold lock_session in unfold zero_and_drop in refl,
  λ a w. lock_session-IsZero a (run fresh cs) (WasCached-Handled a fresh cs fresh-IsBounded w),
)

-- unlockSession leaves the buffer that it is given as it is, unless that is the cached key itself.
pub read-unlock_session :
    (s : Session) (place ttl now : ℕ)
    → place < length s.heap
    → s.cached_master_key ≢ some place
    → read (unlock_session s place ttl now).0.heap place ≡ read s.heap place
unfolding unlock_session zero_and_drop
read-unlock_session s place ttl now lt n = elim (Bool-cases (length (read s.heap place) == 32)) [
  | inl e ↦ rw e (
      read-alloc_old (dropped s.cached_master_key s.heap) _ place
        (λ p. omega (arith, lt, length-dropped s.cached_master_key s.heap))
      ∙ read-dropped s.cached_master_key n)
  | inr e ↦ rw e refl
]
  where
    read-dropped :
        (k : Option ℕ) → k ≢ some place → read (dropped k s.heap) place ≡ read s.heap place
    read-dropped none m = refl
    read-dropped (some k) m = read-fill_ne s.heap k place (λ p. m (ap some p))
