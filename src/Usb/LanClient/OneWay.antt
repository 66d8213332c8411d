-- ===== src/Usb/LanClient/OneWay.antt =====
-- src/usb/lan-client.ts: what a scoped sync may do.
use abracadabra.Common.{
  String, Bool, true, false, not, ◌≡◌, refl, ◌⊎◌, if◌then◌else◌, Option, some, List, All, Result,
  ok, err, inl, inr,
}
use abracadabra.Common.Maps
use abracadabra.Core.Vault.{Vault}
use abracadabra.Core.Scope.{ScopedMergeResult, merge_scoped_projects}
use abracadabra.Usb.LanHost.{requested}
use abracadabra.Usb.LanClient.{
  Suite, Bundle, Network, Local, LoadError, is_locked, is_broken, not_saved, vault_locked,
}
use abracadabra.Usb.LanClient.Acts.{
  Did, asked_approval, saved_vault, pushed_bundle, saved_state, ◌>>◌, finish, done_if, authenticate,
}
use abracadabra.Usb.LanClient.Payload.{check_requested, pull_projects}
use abracadabra.Usb.LanClient.Scoped.{
  later, load_vault_for_scoped, approve_once, save_scoped, scoped_lan_sync, ScopedOutcome,
}
use abracadabra.Usb.LanClient.Safety.{
  Keeps, >>=-Keeps, done_if-Keeps, authenticate-Keeps, authenticate-ok,
}
use abracadabra.Usb.LanClient.Untouched.{
  IsOther, merge_scoped_projects-other, pull_projects-IsOther,
}

module _ (suite : Suite) (net : Network (Bundle suite)) (m : Local) (pin : String) where
  -- The vault that a scoped sync starts from: as it is read, at once or after the approval that
  -- unlocks it.
  abbrev pub IsLoaded : Vault → Type 0
  IsLoaded local = (m.vault ≡ ok local) ⊎ ((m.vault ≡ err is_locked) × (m.vault_later ≡ ok local))

  later-ok :
      (r : Result LoadError Vault) {local : Vault} {approved : Bool}
      → later suite net m pin r ≡ ok (local, approved)
      → r ≡ ok local
  later-ok (ok v) h = cc
  later-ok (err is_locked) h = absurd (cc)
  later-ok (err is_broken) h = absurd (cc)

  load-ok :
      (dry_run : Bool) (r : Result LoadError Vault) {local : Vault} {approved : Bool}
      → m.vault ≡ r
      → (load_vault_for_scoped suite net m pin dry_run r).1 ≡ ok (local, approved)
      → IsLoaded local × (approved ≡ true → m.approves ≡ true)
  unfolding load_vault_for_scoped
  load-ok dry_run (ok v) e h = (inl (cc (e, h)), λ a. absurd (cc (h, a)))
  load-ok dry_run (err is_broken) e h = absurd (cc)
  load-ok true (err is_locked) e h = absurd (cc)
  load-ok false (err is_locked) {local} {approved} e h = unlock m.passphrase_file m.approves refl h
    where
      unlock :
          (file approves : Bool)
          → m.approves ≡ approves
          → (if file
              then (◌>>◌ {B = Bundle suite}
                  (authenticate approves)
                  (finish (later suite net m pin m.vault_later)))
              else finish (err vault_locked)).1
            ≡ ok (local, approved)
          → IsLoaded local × (approved ≡ true → m.approves ≡ true)
      unlock true true p q = (inr (e, later-ok m.vault_later q), λ a. p)
      unlock true false p q = absurd (cc)
      unlock false approves p q = absurd (cc)

  module _ (asked : List String) (dry_run : Bool) where
    -- The rest of the vault is as it was, and so is every project that was not asked for.
    abbrev pub Leaves : (local v : Vault) → Type 0
    Leaves local v =
        (v ≡ record local { projects = v.projects })
        × ((k : String) → IsOther asked k → Maps.get k v.projects ≡ Maps.get k local.projects)

    abbrev pub IsOneWay : Did (Bundle suite) → Type 0
    IsOneWay asked_approval = Unit {0}
    IsOneWay (saved_vault v) =
        (m.approves ≡ true)
        × (dry_run ≡ false)
        × ((local : Vault) × IsLoaded local × Leaves local v)
    IsOneWay (pushed_bundle b) = ⊥
    IsOneWay (saved_state id v) = ⊥

    load-IsOneWay :
        (r : Result LoadError Vault)
        → Keeps IsOneWay (load_vault_for_scoped suite net m pin dry_run r)
    unfolding load_vault_for_scoped
    load-IsOneWay r = go dry_run r
      where
        unlock :
            (file : Bool)
            → Keeps IsOneWay (
                if file
                then (authenticate m.approves >> finish (later suite net m pin m.vault_later))
                else finish (err vault_locked))
        unlock true =
            >>=-Keeps IsOneWay (authenticate m.approves) _
              (authenticate-Keeps IsOneWay m.approves tt) λ _ _. tt
        unlock false = tt

        go :
            (dry : Bool) (r : Result LoadError Vault)
            → Keeps IsOneWay (load_vault_for_scoped suite net m pin dry r)
        go dry (ok v) = tt
        go dry (err is_broken) = tt
        go true (err is_locked) = tt
        go false (err is_locked) = unlock m.passphrase_file

    approve_once-Keeps : (approved : Bool) → Keeps IsOneWay (approve_once suite net m pin approved)
    unfolding approve_once
    approve_once-Keeps true = tt
    approve_once-Keeps false = authenticate-Keeps IsOneWay m.approves tt

    approve_once-ok :
        (approved : Bool) {u : Unit {0}}
        → (approve_once suite net m pin approved).1 ≡ ok u
        → (approved ≡ true → m.approves ≡ true)
        → m.approves ≡ true
    unfolding approve_once
    approve_once-ok true h was = was refl
    approve_once-ok false h was = authenticate-ok (Bundle suite) m.approves h

    save_scoped-IsOneWay :
        (dry approved : Bool) (r : ScopedMergeResult) (local : Vault)
        → dry_run ≡ dry
        → (approved ≡ true → m.approves ≡ true)
        → IsLoaded local
        → Leaves local r.merged
        → Keeps IsOneWay (save_scoped suite net m pin dry approved r)
    unfolding save_scoped
    save_scoped-IsOneWay true approved r local e was loaded leaves = tt
    save_scoped-IsOneWay false approved r local e was loaded leaves = write r.changed
      where
        write :
            (changed : Bool)
            → Keeps IsOneWay {A = ScopedOutcome} (
                if not changed
                then finish (ok (record { changed = false; report = r.report; dry_run = false }))
                else (approve_once suite net m pin approved
                    >> done_if m.saves not_saved (saved_vault r.merged)
                    >> finish (ok (record { changed = true; report = r.report; dry_run = false }))))
        write false = tt
        write true =
            >>=-Keeps IsOneWay
              (approve_once suite net m pin approved
                >> done_if m.saves not_saved (saved_vault r.merged))
              _
              (>>=-Keeps IsOneWay (approve_once suite net m pin approved) _
                (approve_once-Keeps approved)
                λ _ a.
                  done_if-Keeps IsOneWay m.saves not_saved (saved_vault r.merged)
                    λ _. (approve_once-ok approved a was, e, (local, loaded, leaves)))
              λ _ _. tt

  -- `scopedLanSync` for some names never pushes and never changes a base of a sync, and in a dry run
  -- it does not write. It writes the vault only when the user has approved, and then only projects
  -- change: none whose name was not asked for, or is reserved once trimmed, and nothing else of the
  -- vault.
  pub scoped_lan_sync-IsOneWay :
      (fp : Option String) (names : Option (List String)) (asked : List String)
      (theirs dry_run : Bool)
      → check_requested (requested names) ≡ ok (some asked)
      → All (IsOneWay asked dry_run) (scoped_lan_sync suite net m pin fp names theirs dry_run).0
  unfolding scoped_lan_sync merge_scoped_projects
  scoped_lan_sync-IsOneWay fp names asked theirs dry_run g =
      >>=-Keeps (IsOneWay asked dry_run) (finish (pull_projects suite net pin fp names)) _ tt
        λ pulled e.
          >>=-Keeps (IsOneWay asked dry_run) (load_vault_for_scoped suite net m pin dry_run m.vault)
            _ (load-IsOneWay asked dry_run m.vault)
            λ local l.
              let from = load-ok dry_run m.vault {local = local.0} {approved = local.1} refl l in
              save_scoped-IsOneWay asked dry_run dry_run local.1
                (merge_scoped_projects local.0 pulled.projects theirs) local.0 refl from.1 from.0
                (
                  refl,
                  λ k other.
                      merge_scoped_projects-other local.0 pulled.projects theirs k
                        (pull_projects-IsOther suite net pin fp names asked k g e other),
                )
