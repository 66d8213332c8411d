-- ===== src/Usb/LanClient/Outcome.antt =====
-- src/usb/lan-client.ts: how a sync that returns has ended.
use mathlib.Core.Path.{subst}
use abracadabra.Common.{ℕ, String, Bool, not, ◌≡◌, sym, Option, some, List, [], ◌∷◌, ok}
use abracadabra.Core.Vault.{without_device_local}
use abracadabra.Core.Envelope.{Opens}
use abracadabra.Core.Sync.Bases.{save_sync_state}
use abracadabra.Usb.LanClient.{
  Suite, Bundle, Network, Local, Force, Plan, plan_lan_sync, open_remote_payload,
}
use abracadabra.Usb.LanClient.Acts.{
  Did, finish, SyncOutcome, sealed, changes_nothing, carry_out, apply_lan_sync,
}
use abracadabra.Usb.LanClient.Agreement.{
  vault_after, sent, bases_after, >>=-Does, open_remote_payload-sealed, settled_on,
  carry_out-Agreed,
}

module _ (suite : Suite) (net : Network (Bundle suite)) (m : Local) (pin : String) where
  open suite use {vaults, bundles}

  -- The end of a sync: a vault that this machine has, that the host was sent and that is the base.
  pub record Settled (plan : Plan) (ds : List (Did (Bundle suite))) (r : SyncOutcome) : Type 0 where
    pub bundle : Bundle suite
    pub changed : r.changed ≡ not (changes_nothing suite net m pin plan)
    pub written : vault_after plan.local ds ≡ settled_on suite net m pin plan
    pub delivered : sent ds ≡ bundle ∷ []
    pub opens :
        open_remote_payload suite bundle pin
        ≡ ok (record {
          vault = without_device_local (settled_on suite net m pin plan);
          device_id = some m.sealing.device_id;
        })
    pub based :
        (now : ℕ)
        → bases_after now m.bases ds
          ≡ save_sync_state m.bases plan.peer_id (settled_on suite net m pin plan) now

  pub carry_out-Settled :
      (plan : Plan) (r : SyncOutcome)
      → Opens vaults
      → Opens bundles
      → (carry_out suite net m pin plan).1 ≡ ok r
      → Settled plan (carry_out suite net m pin plan).0 r
  carry_out-Settled plan r ov ob h =
      let a = carry_out-Agreed suite net m pin plan r h in
      record {
        bundle = sealed suite net m pin (settled_on suite net m pin plan) a.key;
        changed = a.changed;
        written = a.written;
        delivered = a.delivered;
        opens =
            open_remote_payload-sealed suite net m pin (settled_on suite net m pin plan) a.key ov
              ob;
        based = a.based;
      }

  module _ (force : Option Force) (fp : Option String) (deletes : Bool) (r : SyncOutcome) where
    -- When `applyLanSync` returns, there is a plan that passed its checks, and one vault for it: the
    -- merge, or our vault where the plan has nothing to report. This machine has that vault, the
    -- host was sent exactly one bundle, which opens with the PIN to that vault without its
    -- device-local fields, and that vault is saved as the base for the host. The ciphers open what
    -- they sealed.
    pub apply_lan_sync-Settled :
        Opens vaults
        → Opens bundles
        → (apply_lan_sync suite net m pin force fp deletes).1 ≡ ok r
        → (plan : Plan) × (plan_lan_sync suite net m pin force fp deletes ≡ ok plan)
          × Settled plan (apply_lan_sync suite net m pin force fp deletes).0 r
    unfolding apply_lan_sync
    apply_lan_sync-Settled ov ob h =
        let a = >>=-Does (finish (plan_lan_sync suite net m pin force fp deletes)) _ h in
        (
          a.0,
          a.1,
          subst (λ (ds : List (Did (Bundle suite))). Settled a.0 ds r) (sym (a.3))
              (carry_out-Settled a.0 r ov ob a.2),
        )
