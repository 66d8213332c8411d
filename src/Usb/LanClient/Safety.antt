-- ===== src/Usb/LanClient/Safety.antt =====
-- src/usb/lan-client.ts: what `applyLanSync` may do, and when.

use mathlib.Core.Path.{subst}
use abracadabra.Common.{
  String, Bool, true, false, ◌||◌, ◌≡◌, refl, ◌⊎◌, Option, none, some, is_some, All, All-append, ok,
  err, inl, inr, Bool-cases, >>=-eq-ok, require-eq-ok, require,
}
use abracadabra.Core.Backup.{Bytes}
use abracadabra.Core.Vault.{Vault}
use abracadabra.Usb.LanClient.{
  Suite, Bundle, Network, Local, LanError, Force, Plan, is_empty, plan_lan_sync, conflicting,
  not_saved, would_delete, require_fingerprint, pull_bundle, open_remote_payload, loaded, plan_of,
}
use abracadabra.Usb.LanClient.Acts.{
  Did, asked_approval, saved_vault, pushed_bundle, saved_state, Act, ◌>>=◌, finish, done_if,
  authenticate, master_key_of, sealed, push_vault, keep_local, write_merge, changes_nothing,
  carry_out, apply_lan_sync,
}

-- The rules for acts of which everything that is done fulfils a predicate.
module _ {B : Type 0} (P : Did B → Type 0) where
  abbrev pub Keeps : {A : Type 0} → Act B A → Type 0
  Keeps act = All P act.0

  pub >>=-Keeps :
      {A C : Type 0} (act : Act B A) (next : A → Act B C)
      → Keeps act
      → ((a : A) → act.1 ≡ ok a → Keeps (next a))
      → Keeps (act >>= next)
  >>=-Keeps (ds, err e) next k h = k
  >>=-Keeps (ds, ok a) next k h = All-append P ds (next a).0 k (h a refl)

  pub done_if-Keeps :
      (b : Bool) (e : LanError) (d : Did B) → (b ≡ true → P d) → Keeps (done_if b e d)
  done_if-Keeps true e d h = (h refl, tt)
  done_if-Keeps false e d h = tt

  pub authenticate-Keeps : (b : Bool) → P asked_approval → Keeps (authenticate b)
  authenticate-Keeps true h = (h, tt)
  authenticate-Keeps false h = (h, tt)

pub authenticate-ok :
    (B : Type 0) (b : Bool) {u : Unit {0}} → (authenticate {B = B} b).1 ≡ ok u → b ≡ true
authenticate-ok B true h = refl
authenticate-ok B false h = absurd (cc)

module _ (suite : Suite) (net : Network (Bundle suite)) (m : Local) (pin : String) where
  pub plan_lan_sync-checks :
      (force : Option Force) (fp : Option String) (deletes : Bool) {plan : Plan}
      → plan_lan_sync suite net m pin force fp deletes ≡ ok plan
      → ((is_empty plan.merge.conflicts || is_some force) ≡ true)
        × ((is_empty plan.merge.project_deletions || deletes) ≡ true)
  unfolding plan_lan_sync
  plan_lan_sync-checks force fp deletes {plan} h =
      let a = >>=-eq-ok (require_fingerprint fp) _ h in
      let b = >>=-eq-ok (pull_bundle net a.0 pin none) _ a.2 in
      let c = >>=-eq-ok (open_remote_payload suite b.0 pin) _ b.2 in
      let d = >>=-eq-ok (loaded m.vault) _ c.2 in
      let found = plan_of a.0 m d.0 c.0 force in
      let e =
        >>=-eq-ok
          (require (is_empty found.merge.conflicts || is_some force)
            (conflicting found.merge.conflicts))
          _ d.2 in
      let f =
        >>=-eq-ok
          (require (is_empty found.merge.project_deletions || deletes)
            (would_delete found.merge.project_deletions))
          _ e.2 in
      subst
        (λ (q : Plan).
          ((is_empty q.merge.conflicts || is_some force) ≡ true)
          × ((is_empty q.merge.project_deletions || deletes) ≡ true))
        (let same : found ≡ plan = cc f.2 in same) (require-eq-ok _ _ e.1, require-eq-ok _ _ f.1)

  master_key_of-Keeps :
      (P : Did (Bundle suite) → Type 0) (key : Option Bytes)
      → Keeps P (master_key_of suite net m pin key)
  master_key_of-Keeps P none = tt
  master_key_of-Keeps P (some key) = tt

  module _ (force : Option Force) (fp : Option String) (deletes : Bool) where
    -- The user approves, conflicts are settled by force, and deletions are allowed.
    pub record Passed (plan : Plan) : Type 0 where
      pub planned : plan_lan_sync suite net m pin force fp deletes ≡ ok plan
      pub approved : m.approves ≡ true
      pub settled : (is_empty plan.merge.conflicts || is_some force) ≡ true
      pub kept : (is_empty plan.merge.project_deletions || deletes) ≡ true

    -- The merge, or our vault where the merge has nothing to report.
    abbrev pub IsOutcome : Plan → Vault → Type 0
    IsOutcome plan v =
        (v ≡ plan.merge.merged) ⊎ ((v ≡ plan.local) × (changes_nothing suite net m pin plan ≡ true))

    abbrev pub MayDo : Did (Bundle suite) → Type 0
    MayDo asked_approval = Unit {0}
    MayDo (saved_vault v) = (plan : Plan) × Passed plan × (v ≡ plan.merge.merged)
    MayDo (pushed_bundle b) =
        (plan : Plan) × Passed plan
        × ((v : Vault) × IsOutcome plan v × ((key : Bytes) × (b ≡ sealed suite net m pin v key)))
    MayDo (saved_state id v) = (plan : Plan) × Passed plan × (id ≡ plan.peer_id) × IsOutcome plan v

    push_vault-MayDo :
        (plan : Plan) (v : Vault)
        → Passed plan
        → IsOutcome plan v
        → Keeps MayDo (push_vault suite net m pin plan.fingerprint v)
    unfolding push_vault
    push_vault-MayDo plan v passed is =
        >>=-Keeps MayDo (master_key_of suite net m pin m.master_key) _
          (master_key_of-Keeps MayDo m.master_key)
          λ key e. ((plan, passed, (v, is, (key, refl))), tt)

    keep_local-MayDo :
        (plan : Plan)
        → Passed plan
        → changes_nothing suite net m pin plan ≡ true
        → Keeps MayDo (keep_local suite net m pin plan)
    unfolding keep_local
    keep_local-MayDo plan passed nothing =
        let is : IsOutcome plan plan.local = inr (refl, nothing) in
        >>=-Keeps MayDo (done_if m.saves_state not_saved (saved_state plan.peer_id plan.local)) _
          (done_if-Keeps MayDo m.saves_state _ _ λ e. (plan, passed, refl, is))
          λ _ _.
            >>=-Keeps MayDo (push_vault suite net m pin plan.fingerprint plan.local) _
              (push_vault-MayDo plan plan.local passed is) λ _ _. tt

    write_merge-MayDo : (plan : Plan) → Passed plan → Keeps MayDo (write_merge suite net m pin plan)
    unfolding write_merge
    write_merge-MayDo plan passed =
        let v = plan.merge.merged in
        let is : IsOutcome plan v = inl refl in
        >>=-Keeps MayDo (done_if m.saves not_saved (saved_vault v)) _
          (done_if-Keeps MayDo m.saves _ _ λ e. (plan, passed, refl))
          λ _ _.
            >>=-Keeps MayDo (push_vault suite net m pin plan.fingerprint v) _
              (push_vault-MayDo plan v passed is)
              λ _ _.
                >>=-Keeps MayDo (done_if m.saves_state not_saved (saved_state plan.peer_id v)) _
                  (done_if-Keeps MayDo m.saves_state _ _ λ e. (plan, passed, refl, is)) λ _ _. tt

    -- `applyLanSync` writes the vault, sends a bundle or changes a base only when the user has
    -- approved, and for a plan whose conflicts are none or forced to a side and whose project
    -- deletions are none or allowed. What it writes is the merge of that plan; what it sends or keeps
    -- as the base of that peer is the merge too, or our vault where the plan has nothing to report.
    pub apply_lan_sync-MayDo : All MayDo (apply_lan_sync suite net m pin force fp deletes).0
    unfolding apply_lan_sync carry_out
    apply_lan_sync-MayDo =
        >>=-Keeps MayDo (finish (plan_lan_sync suite net m pin force fp deletes)) _ tt λ plan e.
          >>=-Keeps MayDo (authenticate m.approves) _ (authenticate-Keeps MayDo m.approves tt)
            λ _ a.
              let checks = plan_lan_sync-checks force fp deletes e in
              let passed : Passed plan = record {
                planned = e;
                approved = authenticate-ok (Bundle suite) m.approves a;
                settled = checks.0;
                kept = checks.1;
              } in
              elim (Bool-cases (changes_nothing suite net m pin plan)) [
                | inl n ↦ rw n (keep_local-MayDo plan passed n)
                | inr n ↦ rw n (write_merge-MayDo plan passed)
              ]
