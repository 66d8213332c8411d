-- ===== src/Pairing/Session/Safety.antt =====
-- src/sync/pair.ts: what has happened before a side of a pairing writes its vault.
use abracadabra.Common.{
  str_eq, Bool, true, false, ◌&&◌, ◌≡◌, ◌⊎◌, refl, ap, ◌∙◌, Option, none, some, List, [], ◌∷◌,
  Result, ok, err, inl, inr, Bool-cases,
}
use abracadabra.Pairing.Channel.{Msg, ChannelError}
use abracadabra.Pairing.Hello.{says_ok, confirm_msg}
use abracadabra.Pairing.Identity.{identity_fingerprint}
use abracadabra.Pairing.Peers.{PeerError, PeerPlan, plan_peer_upsert}
use abracadabra.Pairing.Peers.Rules.{Accepted, plan_peer_upsert-Accepted}
use abracadabra.Core.Vault.{Vault}
use abracadabra.Pairing.Sas.{safety_code}
use abracadabra.Pairing.Session.{
  Proc, Machine, PairSession, confirm_and_save, answered, after_save, load, peer_confirmed,
  save_plan, planned, rebased,
}
use abracadabra.Pairing.Session.Run.{
  World, Did, Inbox, acts, saves, first_in, rest_in, sent, got, asked, loaded, saved,
}

-- What is written for a session that read `fresh` back: all as in the vault that the session goes on
-- from, but for the table of peers, which has the peer of the hello and lacks the one that it
-- replaces.
pub record Adds (m : Machine) (s : PairSession) (vault : Option Vault) (plan : PeerPlan)
    : Type 0 where
  pub fresh : Vault
  pub read_back : vault ≡ some fresh
  pub base : Vault
  pub base_lem : rebased s fresh ≡ some base
  pub accepted : Accepted base s.candidate s.overwrite s.explicit_name m.now plan

planned-Adds :
    (m : Machine) (s : PairSession) (vault : Option Vault) {plan : PeerPlan}
    → planned m s vault ≡ some plan
    → Adds m s vault plan
unfolding planned
planned-Adds m s none h = absurd (cc h)
planned-Adds m s (some fresh) {plan} h = on_base (rebased s fresh) refl
  where
    upsert : Vault → Result PeerError PeerPlan
    upsert base =
        plan_peer_upsert (identity_fingerprint m.crypto) base s.candidate s.overwrite
          s.explicit_name m.now

    on_plan :
        (base : Vault)
        → rebased s fresh ≡ some base
        → (r : Result PeerError PeerPlan) → upsert base ≡ r
        → elim r [ err e ↦ none | ok p ↦ some p ] ≡ some plan
        → Adds m s (some fresh) plan
    on_plan base b (err e) u g = absurd (cc g)
    on_plan base b (ok p) u g =
        let same : p ≡ plan = cc g in
        record {
          fresh = fresh;
          read_back = refl;
          base = base;
          base_lem = b;
          accepted =
              plan_peer_upsert-Accepted (identity_fingerprint m.crypto) base s.candidate s.overwrite
                s.explicit_name m.now (u ∙ ap ok same);
        }

    on_base : (o : Option Vault) → rebased s fresh ≡ o → Adds m s (some fresh) plan
    on_base none b = absurd (cc (rw (planned, b) at h))
    on_base (some base) b = on_plan base b (upsert base) refl (rw (planned, b) at h)

-- The user said yes to the safety code of the transcript, then the peer's message said yes, and then
-- the plan for the vault as read back was written, once.
pub record Confirmed (m : Machine) (s : PairSession) (w : World) (is : Inbox) : Type 0 where
  pub yes_here : w.answer ≡ some true
  pub peer_msg : Msg
  pub came : first_in is ≡ ok peer_msg
  pub yes_there : (str_eq peer_msg.t "confirm" && says_ok peer_msg) ≡ true
  pub plan : PeerPlan
  pub planned_lem : planned m s w.vault ≡ some plan
  pub adds : Adds m s w.vault plan
  pub after : List Did
  pub order :
      acts w (confirm_and_save m s) is
      ≡ asked (safety_code m.crypto s.transcript) (some true)
        ∷ sent (confirm_msg true)
        ∷ got (ok peer_msg)
        ∷ loaded
        ∷ saved plan.vault w.can_save
        ∷ after
  pub once : saves after ≡ []

module _ (m : Machine) (s : PairSession) (w : World) where
  -- What follows on the peer's message.
  record Written (p : Proc) (is : Inbox) : Type 0 where
    plan : PeerPlan
    planned_lem : planned m s w.vault ≡ some plan
    after : List Did
    order : acts w p is ≡ loaded ∷ saved plan.vault w.can_save ∷ after
    once : saves after ≡ []

  after_save-saves :
      (plan : PeerPlan) (is : Inbox) (b : Bool) → saves (acts w (after_save m s plan b) is) ≡ []
  unfolding after_save
  after_save-saves plan is false = refl
  after_save-saves plan is true = refl

  save_plan-Written :
      (is : Inbox) (o : Option PeerPlan)
      → planned m s w.vault ≡ o
      → (saves (acts w (load (λ fresh. save_plan m s (planned m s fresh))) is) ≡ [])
        ⊎ Written (load (λ fresh. save_plan m s (planned m s fresh))) is
  unfolding save_plan
  save_plan-Written is none e = inl (rw (e, save_plan) refl)
  save_plan-Written is (some p) e = inr (record {
    plan = p;
    planned_lem = e;
    after = acts w (after_save m s p w.can_save) is;
    order = rw (e, save_plan) refl;
    once = after_save-saves p is w.can_save;
  })

  confirmed_by : Msg → Bool
  confirmed_by msg = str_eq msg.t "confirm" && says_ok msg

  peer_confirmed-Written :
      (is : Inbox) (r : Result ChannelError Msg)
      → (saves (acts w (peer_confirmed m s r) is) ≡ [])
        ⊎ ((msg : Msg) × (r ≡ ok msg)
            × (confirmed_by msg ≡ true)
            × Written (peer_confirmed m s r) is)
  unfolding peer_confirmed confirmed_by
  peer_confirmed-Written is (err e) = inl refl
  peer_confirmed-Written is (ok msg) = elim (Bool-cases (str_eq msg.t "error")) [
    | inl e ↦ inl (rw e refl)
    | inr e ↦ elim (Bool-cases (str_eq msg.t "confirm" && says_ok msg)) [
      | inr c ↦ inl (simp (e, c) refl)
      | inl c ↦ elim (save_plan-Written is (planned m s w.vault) refl) [
        | inl n ↦ inl (simp (e, c) n)
        | inr y ↦ inr (msg, refl, c, simp (e, c) y)
      ]
    ]
  ]

  pub confirm_and_save-Confirmed :
      (is : Inbox) → (saves (acts w (confirm_and_save m s) is) ≡ []) ⊎ Confirmed m s w is
  unfolding confirm_and_save answered confirmed_by
  confirm_and_save-Confirmed is = go w.answer refl
    where
      go :
          (a : Option Bool)
          → w.answer ≡ a
          → (saves (acts w (confirm_and_save m s) is) ≡ []) ⊎ Confirmed m s w is
      go none e = inl (rw (e, answered) refl)
      go (some false) e = inl (rw (e, answered) refl)
      go (some true) e = elim (peer_confirmed-Written (rest_in is) (first_in is)) [
        | inl n ↦ inl (rw (e, answered) n)
        | inr (msg, r, c, y) ↦ inr (record {
          yes_here = e;
          peer_msg = msg;
          came = r;
          yes_there = c;
          plan = y.plan;
          planned_lem = y.planned_lem;
          adds = planned-Adds m s w.vault y.planned_lem;
          after = y.after;
          order = rw (e, answered, y.order, r) refl;
          once = y.once;
        })
      ]
