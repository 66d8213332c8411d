-- ===== src/Pairing/Session/Exchange.antt =====
-- src/sync/pair.ts: two sides that answer each other over channels that lose nothing.
use mathlib.Core.Path.{subst}
use abracadabra.Common.{
  ℕ, zero, suc, Bool, true, false, ◌≡◌, refl, sym, ap, ◌∙◌, Option, none, some, List, [], ◌∷◌, ok,
}
use abracadabra.Common.Json.{field}
use abracadabra.Pairing.Channel.{Msg}
use abracadabra.Pairing.Hello.{says_ok, confirm_msg, saved_msg}
use abracadabra.Pairing.Peers.{PeerPlan}
use abracadabra.Pairing.Session.{
  Proc, send, close, await_close, recv, ask, load, save, done, abort, Machine, PairSession,
  confirm_and_save, answered, after_save, peer_confirmed, save_plan, planned, saved_ack, finished,
  precheck_plan,
}
use abracadabra.Pairing.Sas.{safety_code}
use abracadabra.Pairing.Session.Run.{
  World, Did, Inbox, acts, sent, got, asked, loaded, saved, closed,
}

module _ (w : World) where
  -- What a side sends, given what has come in, until it waits for more.
  abbrev pub sends : Proc → List Msg → List Msg
  sends (send m p) box = m ∷ sends p box
  sends (close p) box = sends p box
  sends (await_close ms p) box = sends p box
  sends (recv ms k) [] = []
  sends (recv ms k) (i ∷ box) = sends (k (ok i)) box
  sends (ask code k) box = sends (k w.answer) box
  sends (load k) box = sends (k w.vault) box
  sends (save v k) box = sends (k w.can_save) box
  sends (done r) box = []
  sends (abort e) box = []

  -- Where it then stands.
  abbrev pub goes_to : Proc → List Msg → Proc
  goes_to (send m p) box = goes_to p box
  goes_to (close p) box = goes_to p box
  goes_to (await_close ms p) box = goes_to p box
  goes_to (recv ms k) [] = recv ms k
  goes_to (recv ms k) (i ∷ box) = goes_to (k (ok i)) box
  goes_to (ask code k) box = goes_to (k w.answer) box
  goes_to (load k) box = goes_to (k w.vault) box
  goes_to (save v k) box = goes_to (k w.can_save) box
  goes_to (done r) box = done r
  goes_to (abort e) box = abort e

-- `n` rounds, the listener first. `box` is what the connector has sent.
abbrev pub exchange : ℕ → (wc wl : World) → (c l : Proc) → (box : List Msg) → Proc × Proc
exchange zero wc wl c l box = (c, l)
exchange (suc n) wc wl c l box =
    let back = sends wl l box in
    exchange n wc wl (goes_to wc c back) (goes_to wl l box) (sends wc c back)

-- A side that goes through: the user says yes, the vault can be read and written, and takes the peer.
pub record Willing (m : Machine) (s : PairSession) (w : World) (plan : PeerPlan) : Type 0 where
  pub yes : w.answer ≡ some true
  pub planned_lem : planned m s w.vault ≡ some plan
  pub can_save : w.can_save ≡ true
  pub prechecked : precheck_plan m s.candidate ≡ true

module _ {m : Machine} {s : PairSession} {w : World} {plan : PeerPlan}
    (h : Willing m s w plan) where
  -- What the last wait does with the peer's acknowledgement.
  abbrev pub last_wait : Proc
  last_wait =
      recv m.timeouts.saved_ack_ms
        (λ ack. await_close m.timeouts.close_ms (done (finished m s plan (saved_ack ack))))

  pub confirm_and_save-sends :
      (box : List Msg)
      → sends w (confirm_and_save m s) box
        ≡ confirm_msg true ∷ sends w (recv m.timeouts.confirm_ms (peer_confirmed m s)) box
  unfolding confirm_and_save answered
  confirm_and_save-sends box = rw (h.yes, answered) refl

  pub confirm_and_save-goes_to :
      (box : List Msg)
      → goes_to w (confirm_and_save m s) box
        ≡ goes_to w (recv m.timeouts.confirm_ms (peer_confirmed m s)) box
  unfolding confirm_and_save answered
  confirm_and_save-goes_to box = rw (h.yes, answered) refl

  confirmed_lem :
      peer_confirmed m s (ok (confirm_msg true)) ≡ load (λ fresh. save_plan m s (planned m s fresh))
  unfolding peer_confirmed says_ok field
  confirmed_lem = refl

  -- What the side does from `p` on, where it is at the write of its vault.
  Writes : (box : List Msg) → World → Proc → Type 0
  Writes box u p =
      (sends u p box ≡ saved_msg true ∷ sends u last_wait box)
      × (goes_to u p box ≡ goes_to u last_wait box)

  after_save-Writes :
      (box : List Msg) (u : World) (b : Bool) → b ≡ true → Writes box u (after_save m s plan b)
  unfolding Writes after_save
  after_save-Writes box u true e = (refl, refl)
  after_save-Writes box u false e = absurd (cc e)

  save_plan-Writes : (box : List Msg) → Writes box w (save_plan m s (some plan))
  unfolding Writes save_plan
  save_plan-Writes box = after_save-Writes box w w.can_save h.can_save

  peer_confirmed-Writes :
      (box : List Msg) → Writes box w (peer_confirmed m s (ok (confirm_msg true)))
  unfolding Writes
  peer_confirmed-Writes box = rw confirmed_lem (
      subst (λ (o : Option PeerPlan). Writes box w (save_plan m s o)) (sym h.planned_lem)
        (save_plan-Writes box))

-- What a side does when all goes well: it shows the code of the transcript and the user says yes, both
-- confirm, it writes the plan for the vault as read back, and both say that they have saved.
abbrev pub goes_well : Machine → PairSession → PeerPlan → List Did
goes_well m s plan =
    asked (safety_code m.crypto s.transcript) (some true)
    ∷ sent (confirm_msg true)
    ∷ got (ok (confirm_msg true))
    ∷ loaded
    ∷ saved plan.vault true
    ∷ sent (saved_msg true)
    ∷ got (ok (saved_msg true))
    ∷ closed
    ∷ []

-- What a peer for whom all goes well sends.
abbrev pub both_yes : Inbox
both_yes = ok (confirm_msg true) ∷ ok (saved_msg true) ∷ []

module _ {m : Machine} {s : PairSession} {w : World} {plan : PeerPlan}
    (h : Willing m s w plan) where
  saved_acts : (b : Bool) → List Did
  saved_acts b = saved plan.vault b ∷ acts w (after_save m s plan b) (ok (saved_msg true) ∷ [])

  save_plan-acts : (o : Option PeerPlan) → List Did
  save_plan-acts o = loaded ∷ acts w (save_plan m s o) (ok (saved_msg true) ∷ [])

  saved_acts-eq :
      saved_acts true
      ≡ saved plan.vault true ∷ sent (saved_msg true) ∷ got (ok (saved_msg true)) ∷ closed ∷ []
  unfolding saved_acts after_save
  saved_acts-eq = refl

  save_plan-acts_eq : save_plan-acts (some plan) ≡ loaded ∷ saved_acts w.can_save
  unfolding saved_acts save_plan-acts save_plan
  save_plan-acts_eq = refl

  confirmed_acts-eq :
      acts w (peer_confirmed m s (ok (confirm_msg true))) (ok (saved_msg true) ∷ [])
      ≡ save_plan-acts (planned m s w.vault)
  unfolding save_plan-acts
  confirmed_acts-eq = ap (λ (p : Proc). acts w p (ok (saved_msg true) ∷ [])) (confirmed_lem h)

  pub confirm_and_save-goes_well : acts w (confirm_and_save m s) both_yes ≡ goes_well m s plan
  unfolding confirm_and_save answered
  confirm_and_save-goes_well =
      rw (h.yes, answered)
        (ap
          (λ (ds : List Did).
            asked (safety_code m.crypto s.transcript) (some true)
            ∷ sent (confirm_msg true)
            ∷ got (ok (confirm_msg true))
            ∷ ds)
          (confirmed_acts-eq
            ∙ ap save_plan-acts h.planned_lem
            ∙ save_plan-acts_eq
            ∙ ap (λ (b : Bool). loaded ∷ saved_acts b) h.can_save
            ∙ ap (λ (ds : List Did). loaded ∷ ds) saved_acts-eq))

module _ {m : Machine} {s : PairSession} {w : World} {plan : PeerPlan} (h : Willing m s w plan)
    (box : List Msg) where
  pub peer_confirmed-sends :
      sends w (peer_confirmed m s (ok (confirm_msg true))) box
      ≡ saved_msg true ∷ sends w (last_wait h) box
  unfolding Writes
  peer_confirmed-sends = (peer_confirmed-Writes h box).0

  pub peer_confirmed-goes_to :
      goes_to w (peer_confirmed m s (ok (confirm_msg true))) box ≡ goes_to w (last_wait h) box
  unfolding Writes
  peer_confirmed-goes_to = (peer_confirmed-Writes h box).1

pub saved_ack-saved : saved_ack (ok (saved_msg true)) ≡ none
unfolding saved_ack says_ok field
saved_ack-saved = refl

pub one_round :
    (n : ℕ) (wc wl : World) (c l : Proc) (box : List Msg) {c' l' : Proc} {back out : List Msg}
    → sends wl l box ≡ back
    → goes_to wl l box ≡ l'
    → sends wc c back ≡ out
    → goes_to wc c back ≡ c'
    → exchange (suc n) wc wl c l box ≡ exchange n wc wl c' l' out
one_round n wc wl c l box a b d e = rw (a, b, d, e) refl
