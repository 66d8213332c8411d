-- ===== src/Usb/LanClient/Unreported.antt =====
-- src/usb/lan-client.ts: what becomes of a change of the host for which a merge has no line of report.
use mathlib.Core.Path.{subst}
use abracadabra.Common.{
  String, Bool, true, false, ◌||◌, ◌≡◌, refl, sym, ap, ◌∙◌, if◌then◌else◌, Option, none, some,
  is_some, get_or, List, [], ◌∷◌, Result, ok, arith,
}
use abracadabra.Common.Maps.{has}
use abracadabra.Core.Vault.{Vault, Connection, without_device_local, decided, keep_device_local}
use abracadabra.Core.Envelope.{Opens}
use abracadabra.Core.Sync.{Resolutions}
use abracadabra.Core.Sync.Bases.{lan_peer_id}
use abracadabra.Core.Sync.Report.{
  ReportLine, lines_of, connection_lines, connection_line_at, project_line_at, merge_report,
}
use abracadabra.Core.Sync.Whole.{three_way_merge, merge_passkeys, base_passkeys}
use abracadabra.Usb.LanClient.{
  Suite, Bundle, Network, Local, LanError, Force, Plan, Remote, is_empty, plan_of, base_of, forced,
  plan_lan_sync, open_remote_payload,
}
use abracadabra.Usb.LanClient.Acts.{
  Did, finish, SyncOutcome, changes_nothing, carry_out, apply_lan_sync,
}
use abracadabra.Usb.LanClient.Agreement.{vault_after, sent, >>=-Does}
use abracadabra.Usb.LanClient.Safety.{plan_lan_sync-checks}
use abracadabra.Usb.LanClient.Outcome.{Settled, carry_out-Settled}

lines_of-nil :
    (lines : String → List ReportLine) (names : List String)
    → ((k : String) → lines k ≡ [])
    → lines_of lines names ≡ []
lines_of-nil lines [] h = refl
lines_of-nil lines (name ∷ names) h = rw (h name) (lines_of-nil lines names h)

connection_lines-same :
    (name : String) (o t : Option Connection)
    → is_some o ≡ is_some t
    → connection_lines name o t ≡ []
unfolding connection_lines
connection_lines-same name (some o) (some t) h = refl
connection_lines-same name none none h = refl
connection_lines-same name (some o) none h = absurd (cc)
connection_lines-same name none (some t) h = absurd (cc)

-- A merge whose projects have no line, of vaults with connections to the same providers, reports
-- nothing.
merge_report-nil :
    (ours theirs : Vault) (base : Option Vault) (resolutions : Resolutions)
    → ((k : String) → project_line_at ours theirs base resolutions k ≡ [])
    → ((k : String) → has k (get_or ours.connections []) ≡ has k (get_or theirs.connections []))
    → merge_report ours theirs base resolutions ≡ []
unfolding merge_report
merge_report-nil ours theirs base resolutions p c =
    rw
      (
        lines_of-nil (project_line_at ours theirs base resolutions) _ p,
        lines_of-nil (connection_line_at ours theirs) _ (λ k. connection_lines-same k _ _ (c k)),
      )
      refl

decided-true {ℓ} : {A : Type ℓ} {a b : A} (d : Dec (a ≡ b)) → a ≡ b → decided d ≡ true
decided-true (yes p) h = refl
decided-true (no n) h = absurd (n h)

merged-passkeys :
    (ours theirs : Vault) (base : Option Vault) (resolutions : Resolutions)
    → get_or ours.passkeys [] ≡ base_passkeys base
    → (three_way_merge ours theirs base resolutions).merged.passkeys ≡ theirs.passkeys
unfolding three_way_merge keep_device_local merge_passkeys
merged-passkeys ours theirs base resolutions h = rw (decided-true _ h) refl

module _ (suite : Suite) (net : Network (Bundle suite)) (m : Local) (pin : String) where
  open suite use {vaults, bundles}

  plan_of-changes_nothing :
      (fp : String) (local : Vault) (remote : Remote) (force : Option Force)
      → let base = base_of m.bases (lan_peer_id remote.device_id) in
        let resolutions = forced force local remote.vault base in
        ((k : String) → project_line_at local remote.vault base resolutions k ≡ [])
        → ((k : String)
            → has k (get_or local.connections []) ≡ has k (get_or remote.vault.connections []))
        → (is_empty (plan_of fp m local remote force).merge.project_deletions || false) ≡ true
        → changes_nothing suite net m pin (plan_of fp m local remote force) ≡ true
  plan_of-changes_nothing fp local remote force p c d =
      let base = base_of m.bases (lan_peer_id remote.device_id) in
      rw (merge_report-nil local remote.vault base (forced force local remote.vault base) p c)
        (ground (arith, d))

  module _ (force : Option Force) (fp : Option String) (r : SyncOutcome) where
    -- When `applyLanSync` returns, no deletions being allowed, for a plan that it made of our vault and
    -- of the host's, where the merge has no line for any project and both vaults have connections to
    -- the same providers: whatever connections, passkeys and API keys the host has, the sync reports
    -- no change, this machine keeps its vault as it was, and that is what the host is sent, in exactly
    -- one bundle. So the host's passkeys are lost, which the merge takes where ours are those of the
    -- base. The ciphers open what they sealed.
    pub unreported_changes_lost :
        (f : String) (local : Vault) (remote : Remote)
        → Opens vaults
        → Opens bundles
        → plan_lan_sync suite net m pin force fp false ≡ ok (plan_of f m local remote force)
        → let base = base_of m.bases (lan_peer_id remote.device_id) in
          let resolutions = forced force local remote.vault base in
          ((k : String) → project_line_at local remote.vault base resolutions k ≡ [])
          → ((k : String)
              → has k (get_or local.connections []) ≡ has k (get_or remote.vault.connections []))
          → (apply_lan_sync suite net m pin force fp false).1 ≡ ok r
          → let ds = (apply_lan_sync suite net m pin force fp false).0 in
            (r.changed ≡ false)
            × (vault_after local ds ≡ local)
            × ((b : Bundle suite) × (sent ds ≡ b ∷ [])
                × (open_remote_payload suite b pin
                    ≡ ok (record {
                      vault = without_device_local local;
                      device_id = some m.sealing.device_id;
                    })))
            × (get_or local.passkeys [] ≡ base_passkeys base
                → (three_way_merge local remote.vault base resolutions).merged.passkeys
                  ≡ remote.vault.passkeys)
    unfolding apply_lan_sync
    unreported_changes_lost f local remote ov ob p lines same h =
        let plan = plan_of f m local remote force in
        let base = base_of m.bases (lan_peer_id remote.device_id) in
        let n =
          plan_of-changes_nothing f local remote force lines same
            ((plan_lan_sync-checks suite net m pin force fp false p).1) in
        let a = >>=-Does (finish (plan_lan_sync suite net m pin force fp false)) _ h in
        let made : plan ≡ a.0 = cc (p, a.1) in
        let c = subst (λ (q : Plan). (carry_out suite net m pin q).1 ≡ ok r) (sym made) a.2 in
        let t = a.3 ∙ ap (λ (q : Plan). (carry_out suite net m pin q).0) (sym made) in
        let s =
          subst (λ (ds : List (Did (Bundle suite))). Settled suite net m pin plan ds r) (sym t)
            (carry_out-Settled suite net m pin plan r ov ob c) in
        let ours = ap (λ (b : Bool). if b then local else plan.merge.merged) n in
        let opened : Vault → Result LanError Remote = λ v.
          ok (record { vault = without_device_local v; device_id = some m.sealing.device_id }) in
        (
          s.changed ∙ rw n refl,
          s.written ∙ ours,
          (s.bundle, s.delivered, s.opens ∙ ap opened ours),
          merged-passkeys local remote.vault base (forced force local remote.vault base),
        )
