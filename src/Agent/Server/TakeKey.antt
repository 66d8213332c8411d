-- ===== src/Agent/Server/TakeKey.antt =====
-- `unlock.key`: the pushed key is decoded to a buffer of its own, which holds zeros at the end.
use abracadabra.Common.{
  ℕ, ◌<◌, ◌==◌, ==_iff, Bool, true, false, ◌≡◌, ◌≢◌, refl, sym, ap, ◌∙◌, Option, none, some, [],
  ◌∷◌, arith, inl, inr, Bool-cases, length, length-append, get_or,
}
use abracadabra.Agent.Buffers.{
  Bytes, Heap, alloc, fill, read, IsZero, read-fill_self, read-fill_ne, read-alloc_old, length-fill,
}
use abracadabra.Agent.State
use abracadabra.Agent.State.{AgentState}
use abracadabra.Agent.State.Invariant.{Fits, IsWiped, hold_lem}
use abracadabra.Agent.Wire.{Host, Server}
use abracadabra.Agent.Server
use abracadabra.Agent.Server.Sound.{Clean, IsSound, Sound, hold-IsSound}

abbrev with_heap : AgentState → Heap → AgentState
with_heap a h = record a { heap = h }

-- A heap that agrees with the old one on the live buffer.
Fits-heap :
    (a : AgentState) (h : Heap) (o : Option ℕ)
    → ((k : ℕ) → o ≡ some k → k < length a.heap → (read h k ≡ read a.heap k) × (k < length h))
    → Fits o a
    → Fits o (with_heap a h)
Fits-heap a h none same f = f
Fits-heap a h (some k) same f = let (r, l) = same k refl f.1 in (rw r f.0, l, f.2, f.3, f.4)

with_heap-IsSound :
    (now : ℕ) (a : AgentState) (h : Heap)
    → ((k : ℕ) → a.key ≡ some k → k < length a.heap → (read h k ≡ read a.heap k) × (k < length h))
    → IsSound false now a
    → IsSound false now (with_heap a h)
with_heap-IsSound now a h same v = record {
  wiped = tt;
  consistent = Fits-heap a h a.key same v.consistent;
  store = v.store;
  past = v.past;
}

alloc-IsSound :
    (now : ℕ) (a : AgentState) (b : Bytes)
    → IsSound false now a
    → IsSound false now (with_heap a (alloc a.heap b))
alloc-IsSound now a b = with_heap-IsSound now a (alloc a.heap b) (λ k e lt.
    (read-alloc_old a.heap b k (λ p. omega arith), omega (arith, length-append a.heap (b ∷ []))))

fill-IsSound :
    (now : ℕ) (a : AgentState) (place : ℕ)
    → a.key ≢ some place
    → IsSound false now a
    → IsSound false now (with_heap a (fill a.heap place))
fill-IsSound now a place ne =
    with_heap-IsSound now a (fill a.heap place)
      (λ k e lt. (read-fill_ne a.heap place k (λ p. ne (e ∙ ap some (sym p))), rw length-fill lt))

-- The key that is held is an older buffer than the one that comes next.
key-ne-length : (o : Option ℕ) (a : AgentState) → Fits o a → o ≢ some (length a.heap)
key-ne-length none a f e = cc
key-ne-length (some k) a f e = ground (arith, f.1)

length-wiped : (o : Option ℕ) (h : Heap) → length (State.wiped o h) ≡ length h
length-wiped none h = refl
length-wiped (some k) h = length-fill h k

-- The key that `unlockWithKey` takes is a copy of its own.
key-unlock_with_key :
    (a : AgentState) (key : Bytes) (now : ℕ)
    → (length key == 32) ≡ true
    → (State.unlock_with_key a key now).0.key ≡ some (length a.heap)
unfolding State.unlock_with_key
key-unlock_with_key a key now h = rw (h, hold_lem) (ap some (length-wiped a.key a.heap))

unlock_with_key-IsSound :
    (now : ℕ) (a : AgentState) (key : Bytes)
    → IsSound false now a
    → IsSound false now (State.unlock_with_key a key now).0
unfolding State.unlock_with_key
unlock_with_key-IsSound now a key v = elim (Bool-cases (length key == 32)) [
  | inl e ↦ rw e (hold-IsSound false now _ key ((==_iff _ _).0 e) tt v.store)
  | inr e ↦ rw e v
]

-- Every buffer holds zeros but the live one and the one at `p`.
abbrev WipedBut : ℕ → AgentState → Type 0
WipedBut p a = (c : ℕ) → a.key ≢ some c → p ≢ c → IsZero (read a.heap c)

fill-IsWiped : (a : AgentState) (p : ℕ) → WipedBut p a → IsWiped (with_heap a (fill a.heap p))
fill-IsWiped a p w c ne = elim (Bool-cases (p == c)) [
  | inl e ↦ rw (← (==_iff p c).0 e) (read-fill_self a.heap p)
  | inr e ↦ let d : p ≢ c = λ q. ground (arith, q) in rw (read-fill_ne a.heap p c d) (w c ne d)
]

alloc-WipedBut :
    (a : AgentState) (b : Bytes)
    → IsWiped a
    → WipedBut (length a.heap) (with_heap a (alloc a.heap b))
alloc-WipedBut a b w c ne d = rw (read-alloc_old a.heap b c (λ e. d (sym e))) (w c ne)

wiped-IsZero_but :
    (k : Option ℕ) (h : Heap) (p : ℕ)
    → ((c : ℕ) → k ≢ some c → p ≢ c → IsZero (read h c))
    → (c : ℕ) → p ≢ c
    → IsZero (read (State.wiped k h) c)
wiped-IsZero_but none h p w c d = w c (λ e. cc) d
wiped-IsZero_but (some k) h p w c d = elim (Bool-cases (k == c)) [
  | inl e ↦ rw (← (==_iff k c).0 e) (read-fill_self h k)
  | inr e ↦
      let ne : k ≢ c = λ q. ground (arith, q) in
      rw (read-fill_ne h k c ne) (w c (λ q. ne (ground arith)) d)
]

unlock_with_key-WipedBut :
    (a : AgentState) (key : Bytes) (now p : ℕ)
    → WipedBut p a
    → WipedBut p (State.unlock_with_key a key now).0
unfolding State.unlock_with_key
unlock_with_key-WipedBut a key now p w = elim (Bool-cases (length key == 32)) [
  | inl e ↦
      rw (e, hold_lem)
        (λ c ne d.
          rw (read-alloc_old (State.wiped a.key a.heap) key c (λ q. ne (ap some (sym q))))
            (wiped-IsZero_but a.key a.heap p w c d))
  | inr e ↦ rw e w
]

module _ (host : Host) where
  open host use {sealer}

  module _ (s : Server sealer.Blob) (now : ℕ) (decoded : Bytes) where
    -- The agent with the decoded key in its memory.
    abbrev decoding : AgentState
    decoding = with_heap s.agent (alloc s.agent.heap decoded)

    abbrev place : ℕ
    place = length s.agent.heap

    decoding-IsSound : IsSound false now s.agent → IsSound false now decoding
    decoding-IsSound = alloc-IsSound now s.agent decoded

    -- The decoded buffer is not the key, whatever `unlockWithKey` did.
    key-ne-place :
        IsSound false now s.agent → (State.unlock_with_key decoding decoded now).0.key ≢ some place
    key-ne-place v = elim (Bool-cases (length decoded == 32)) [
      | inl e ↦ λ p.
          let q = sym (key-unlock_with_key decoding decoded now e) ∙ p in
          omega (arith, length-append s.agent.heap (decoded ∷ []), ap (λ o. get_or o 0) q)
      | inr e ↦
          unfold State.unlock_with_key in rw e (key-ne-length s.agent.key s.agent v.consistent)
    ]

    take_key-Sound_only :
        Sound false host now s → Sound false host now (Server.take_key host s decoded now).0
    unfolding Server.take_key
    take_key-Sound_only v = elim (Bool-cases (Server.opens_with host s.disk decoded)) [
      | inl e ↦ rw e (
          fill-IsSound now _ place (key-ne-place v)
            (unlock_with_key-IsSound now decoding decoded (decoding-IsSound v)))
      | inr e ↦ rw e (
          fill-IsSound now decoding place (key-ne-length s.agent.key s.agent v.consistent)
            (decoding-IsSound v))
    ]

    take_key-IsWiped : IsWiped s.agent → IsWiped (Server.take_key host s decoded now).0.agent
    unfolding Server.take_key
    take_key-IsWiped w = elim (Bool-cases (Server.opens_with host s.disk decoded)) [
      | inl e ↦ rw e (
          fill-IsWiped (State.unlock_with_key decoding decoded now).0 place (
            unlock_with_key-WipedBut decoding decoded now place (alloc-WipedBut s.agent decoded w)))
      | inr e ↦ rw e (fill-IsWiped decoding place (alloc-WipedBut s.agent decoded w))
    ]

    Clean-take_key :
        (clean : Bool)
        → Clean clean s.agent
        → Clean clean (Server.take_key host s decoded now).0.agent
    Clean-take_key false c = tt
    Clean-take_key true c = take_key-IsWiped c

    pub take_key-Sound :
        (clean : Bool)
        → Sound clean host now s
        → Sound clean host now (Server.take_key host s decoded now).0
    take_key-Sound clean v =
        let u =
          take_key-Sound_only
            (record { wiped = tt; consistent = v.consistent; store = v.store; past = v.past }) in
        record {
          wiped = Clean-take_key clean v.wiped;
          consistent = u.consistent;
          store = u.store;
          past = u.past;
        }
