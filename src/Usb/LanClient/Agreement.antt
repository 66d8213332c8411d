-- ===== src/Usb/LanClient/Agreement.antt =====
-- src/usb/lan-client.ts: the vault on which a sync settles, on this machine, on its way to the host and
-- as the base of the next sync.
use mathlib.Core.Path.{subst}
use abracadabra.Common.{
  ℕ, String, Bool, true, false, not, ◌≡◌, refl, sym, ap, ◌∙◌, if◌then◌else◌, Option, none, some,
  List, [], ◌∷◌, ◌++◌, ok, err, inl, inr, Bool-cases,
}
use abracadabra.Core.Vault.{Vault, without_device_local}
use abracadabra.Core.Envelope.{Opens}
use abracadabra.Core.Backup.{Bytes, KdfOptions}
use abracadabra.Core.Backup.Seals.{open_bundle-seal_bundle}
use abracadabra.Core.Backup.Export.{
  encrypt_vault_for_export, decrypt_envelope-encrypt_vault_for_export,
}
use abracadabra.Core.Sync.Bases.{SyncFile, save_sync_state}
use abracadabra.Usb.LanClient.{
  Suite, Bundle, Network, Local, LanError, not_saved, Plan, open_remote_payload,
}
use abracadabra.Usb.LanClient.Acts.{
  Did, asked_approval, saved_vault, pushed_bundle, saved_state, Act, ◌>>=◌, done_if, authenticate,
  SyncOutcome, master_key_of, sealed, push_vault, keep_local, write_merge, changes_nothing,
  carry_out,
}

-- The vault that the machine has after these acts.
abbrev pub vault_after : {B : Type 0} → Vault → List (Did B) → Vault
vault_after v [] = v
vault_after v (saved_vault w ∷ ds) = vault_after w ds
vault_after v (asked_approval ∷ ds) = vault_after v ds
vault_after v (pushed_bundle b ∷ ds) = vault_after v ds
vault_after v (saved_state id w ∷ ds) = vault_after v ds

-- The bundles that were sent.
abbrev pub sent : {B : Type 0} → List (Did B) → List B
sent [] = []
sent (pushed_bundle b ∷ ds) = b ∷ sent ds
sent (asked_approval ∷ ds) = sent ds
sent (saved_vault v ∷ ds) = sent ds
sent (saved_state id v ∷ ds) = sent ds

abbrev pub bases_after : {B : Type 0} → (now : ℕ) → SyncFile → List (Did B) → SyncFile
bases_after now file [] = file
bases_after now file (saved_state id v ∷ ds) = bases_after now (save_sync_state file id v now) ds
bases_after now file (asked_approval ∷ ds) = bases_after now file ds
bases_after now file (saved_vault v ∷ ds) = bases_after now file ds
bases_after now file (pushed_bundle b ∷ ds) = bases_after now file ds

-- What an act that succeeds has done.
module _ {B : Type 0} where
  abbrev pub Does : {A : Type 0} → Act B A → List (Did B) → A → Type 0
  Does act ds a = (act.0 ≡ ds) × (act.1 ≡ ok a)

  pub >>=-Does :
      {A C : Type 0} (act : Act B A) (next : A → Act B C) {c : C}
      → (act >>= next).1 ≡ ok c
      → (a : A) × (act.1 ≡ ok a) × ((next a).1 ≡ ok c) × ((act >>= next).0 ≡ act.0 ++ (next a).0)
  >>=-Does (ds, err e) next h = absurd (cc)
  >>=-Does (ds, ok a) next h = (a, refl, h, refl)

  done_if-Does :
      (b : Bool) (e : LanError) (d : Did B) {u : Unit {0}}
      → (done_if b e d).1 ≡ ok u
      → (done_if b e d).0 ≡ d ∷ []
  done_if-Does true e d h = refl
  done_if-Does false e d h = absurd (cc)

  authenticate-Does :
      (b : Bool) {u : Unit {0}}
      → (authenticate {B = B} b).1 ≡ ok u
      → (authenticate {B = B} b).0 ≡ asked_approval ∷ []
  authenticate-Does true h = refl
  authenticate-Does false h = absurd (cc)

module _ (suite : Suite) (net : Network (Bundle suite)) (m : Local) (pin : String) where
  open suite use {vaults, bundles, scrypt, nfkc}

  -- What a bundle of ours opens to.
  pub open_remote_payload-sealed :
      (v : Vault) (key : Bytes)
      → Opens vaults
      → Opens bundles
      → open_remote_payload suite (sealed suite net m pin v key) pin
        ≡ ok (record { vault = without_device_local v; device_id = some m.sealing.device_id })
  unfolding open_remote_payload sealed
  open_remote_payload-sealed v key ov ob =
      let env = encrypt_vault_for_export vaults v key m.sealing.iv in
      let opts : KdfOptions = record { n = none; r = none; p = none; key_len = none } in
      let e =
        (open_bundle-seal_bundle bundles scrypt nfkc env key pin opts none none m.sealing ob).0 in
      rw (e, open_remote_payload)
        (rw (decrypt_envelope-encrypt_vault_for_export vaults v key m.sealing.iv ov) refl)

  master_key_of-Does :
      (o : Option Bytes) {key : Bytes}
      → (master_key_of suite net m pin o).1 ≡ ok key
      → (master_key_of suite net m pin o).0 ≡ []
  master_key_of-Does none h = absurd (cc)
  master_key_of-Does (some k) h = refl

  push_vault-Does :
      (fp : String) (v : Vault) {u : Unit {0}}
      → (push_vault suite net m pin fp v).1 ≡ ok u
      → (key : Bytes) × ((push_vault suite net m pin fp v).0
          ≡ pushed_bundle (sealed suite net m pin v key) ∷ [])
  unfolding push_vault
  push_vault-Does fp v h =
      let a = >>=-Does (master_key_of suite net m pin m.master_key) _ h in
      (a.0, a.3 ∙ rw (master_key_of-Does m.master_key a.1) refl)

  -- Both branches of a sync, for the vault that it settles on.
  pub record Agreed (plan : Plan) (ds : List (Did (Bundle suite))) (r : SyncOutcome) (v : Vault)
      : Type 0 where
    pub key : Bytes
    pub changed : r.changed ≡ not (changes_nothing suite net m pin plan)
    pub written : vault_after plan.local ds ≡ v
    pub delivered : sent ds ≡ sealed suite net m pin v key ∷ []
    pub based : (now : ℕ) → bases_after now m.bases ds ≡ save_sync_state m.bases plan.peer_id v now

  keep_local-Does :
      (plan : Plan) {r : SyncOutcome}
      → (keep_local suite net m pin plan).1 ≡ ok r
      → (key : Bytes) × ((keep_local suite net m pin plan).0
          ≡ saved_state plan.peer_id plan.local
            ∷ pushed_bundle (sealed suite net m pin plan.local key)
            ∷ [])
        × (r ≡ record { changed = false; report = [] })
  unfolding keep_local
  keep_local-Does plan h =
      let a =
        >>=-Does (done_if m.saves_state not_saved (saved_state plan.peer_id plan.local)) _ h in
      let b = >>=-Does (push_vault suite net m pin plan.fingerprint plan.local) _ a.2 in
      let p = push_vault-Does plan.fingerprint plan.local b.1 in
      (
        p.0,
        a.3
            ∙ rw (done_if-Does m.saves_state not_saved (saved_state plan.peer_id plan.local) a.1)
                (rw (b.3, p.1) refl),
        cc (b.2),
      )

  write_merge-Does :
      (plan : Plan) {r : SyncOutcome}
      → (write_merge suite net m pin plan).1 ≡ ok r
      → let v = plan.merge.merged in
        (key : Bytes) × ((write_merge suite net m pin plan).0
          ≡ saved_vault v
            ∷ pushed_bundle (sealed suite net m pin v key)
            ∷ saved_state plan.peer_id v
            ∷ [])
        × (r ≡ record { changed = true; report = plan.report })
  unfolding write_merge
  write_merge-Does plan h =
      let v = plan.merge.merged in
      let a = >>=-Does (done_if m.saves not_saved (saved_vault v)) _ h in
      let b = >>=-Does (push_vault suite net m pin plan.fingerprint v) _ a.2 in
      let c = >>=-Does (done_if m.saves_state not_saved (saved_state plan.peer_id v)) _ b.2 in
      let p = push_vault-Does plan.fingerprint v b.1 in
      (
        p.0,
        a.3
            ∙ rw (done_if-Does m.saves not_saved (saved_vault v) a.1) (
                rw
                  (
                    b.3,
                    p.1,
                    c.3,
                    done_if-Does m.saves_state not_saved (saved_state plan.peer_id v) c.1,
                  )
                  refl),
        cc (c.2),
      )

  local-Agreed :
      (plan : Plan) (r : SyncOutcome) (key : Bytes) {ds : List (Did (Bundle suite))}
      → changes_nothing suite net m pin plan ≡ true
      → r ≡ record { changed = false; report = [] }
      → ds
        ≡ asked_approval
          ∷ saved_state plan.peer_id plan.local
          ∷ pushed_bundle (sealed suite net m pin plan.local key)
          ∷ []
      → Agreed plan ds r plan.local
  local-Agreed plan r key e p q = record {
    key = key;
    changed = ap (λ (o : SyncOutcome). o.changed) p ∙ sym (ap not e);
    written = ap (vault_after plan.local) q;
    delivered = ap sent q;
    based = λ now. ap (bases_after now m.bases) q;
  }

  merged-Agreed :
      (plan : Plan) (r : SyncOutcome) (key : Bytes) {ds : List (Did (Bundle suite))}
      → changes_nothing suite net m pin plan ≡ false
      → r ≡ record { changed = true; report = plan.report }
      → ds
        ≡ asked_approval
          ∷ saved_vault plan.merge.merged
          ∷ pushed_bundle (sealed suite net m pin plan.merge.merged key)
          ∷ saved_state plan.peer_id plan.merge.merged
          ∷ []
      → Agreed plan ds r plan.merge.merged
  merged-Agreed plan r key e p q = record {
    key = key;
    changed = ap (λ (o : SyncOutcome). o.changed) p ∙ sym (ap not e);
    written = ap (vault_after plan.local) q;
    delivered = ap sent q;
    based = λ now. ap (bases_after now m.bases) q;
  }

  -- The two branches of `carry_out`.
  module _ (plan : Plan) (r : SyncOutcome) (h : (carry_out suite net m pin plan).1 ≡ ok r) where
    carry_out-local :
        changes_nothing suite net m pin plan ≡ true
        → ((keep_local suite net m pin plan).1 ≡ ok r)
          × ((carry_out suite net m pin plan).0
              ≡ asked_approval ∷ (keep_local suite net m pin plan).0)
    unfolding carry_out
    carry_out-local e =
        let a = >>=-Does (authenticate m.approves) _ h in
        (rw e at (a.2), a.3 ∙ rw (e, authenticate-Does m.approves a.1) refl)

    carry_out-merge :
        changes_nothing suite net m pin plan ≡ false
        → ((write_merge suite net m pin plan).1 ≡ ok r)
          × ((carry_out suite net m pin plan).0
              ≡ asked_approval ∷ (write_merge suite net m pin plan).0)
    unfolding carry_out
    carry_out-merge e =
        let a = >>=-Does (authenticate m.approves) _ h in
        (rw e at (a.2), a.3 ∙ rw (e, authenticate-Does m.approves a.1) refl)

  abbrev pub settled_on : Plan → Vault
  settled_on plan = if changes_nothing suite net m pin plan then plan.local else plan.merge.merged

  pub carry_out-Agreed :
      (plan : Plan) (r : SyncOutcome)
      → (carry_out suite net m pin plan).1 ≡ ok r
      → Agreed plan (carry_out suite net m pin plan).0 r (settled_on plan)
  carry_out-Agreed plan r h = elim (Bool-cases (changes_nothing suite net m pin plan)) [
    | inl e ↦
        let c = carry_out-local plan r h e in
        let d = keep_local-Does plan {r = r} c.0 in
        subst (λ (v : Vault). Agreed plan (carry_out suite net m pin plan).0 r v)
          (ap (λ (b : Bool). if b then plan.local else plan.merge.merged) (sym e))
          (local-Agreed plan r d.0 e d.2 (c.1 ∙ ap (λ ds. asked_approval ∷ ds) d.1))
    | inr e ↦
        let c = carry_out-merge plan r h e in
        let d = write_merge-Does plan {r = r} c.0 in
        subst (λ (v : Vault). Agreed plan (carry_out suite net m pin plan).0 r v)
          (ap (λ (b : Bool). if b then plan.local else plan.merge.merged) (sym e))
          (merged-Agreed plan r d.0 e d.2 (c.1 ∙ ap (λ ds. asked_approval ∷ ds) d.1))
  ]
