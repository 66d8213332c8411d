-- ===== src/Usb/LanClient/Tests.antt =====
-- Tests of src/usb/lan-client.ts.
use abracadabra.Common.{
  String, str_eq, true, false, ◌≡◌, refl, none, some, get_or, List, [], ◌∷◌, map, All, ok, inl, inr,
  Bool-cases, ℕ_discrete,
}
use abracadabra.Common.Maps
use abracadabra.Common.Maps.{Map, contains}
use abracadabra.Common.Texts.{trim}
use abracadabra.Core.Vault.{
  Vault, VarEntry, Project, Connection, String-discrete, empty_vault, without_device_local,
  keep_device_local,
}
use abracadabra.Core.Backup.{BundlePayload, Sealing, full_payload, scoped_payload, kdf_of}
use abracadabra.Core.Backup.{
  seal_payload, seal_scoped_bundle, open_bundle, open_any_bundle, decrypt_payload, derive_key,
  seal_bundle, is_scoped_payload,
}
use abracadabra.Core.Backup.Export.{VaultEnvelope, decrypt_envelope}
use abracadabra.Core.Envelope.{decrypt_vault}
use abracadabra.Core.Scope.{
  validate_scope, unknown, extract_scoped_projects, extract_loop, assert_scope_names_allowed,
  clean_names, is_reserved, merge_scoped_projects, merge_scoped_loop, merge_scoped_project,
  merge_scoped_vars, merge_scoped_entry, entry_content_eq,
}
use abracadabra.Core.Sync.{key_set, merge_var_maps, merged_at, merge_entry, entry_eq}
use abracadabra.Core.Sync.Projects.{
  merge_projects, merge_scopes, sort, insert, merge_project, one_sided,
}
use abracadabra.Core.Sync.Connections.{merge_connections, merge_providers, merge_connection, spread}
use abracadabra.Core.Sync.Whole.{three_way_merge, base_passkeys, merge_passkeys, merge_api_keys}
use abracadabra.Core.Sync.Report.{
  merge_report, vars_changed, project_line_at, project_lines, vars_line, vars-discrete,
}
use abracadabra.Core.Sync.Bases.{load_sync_state, lan_peer_id}
use abracadabra.Usb.LanHost.{
  requested, ActiveHost, new_host, handle, route, pull, pull_scoped, serve_scoped, right_pin,
  extract_pin,
}
use abracadabra.Usb.Together.{response_of, pull_request, answer, pull_projects-shared}
use abracadabra.Usb.LanClient.{
  Suite, Bundle, answered, Network, Local, Plan, Remote, plan_of, base_of, plan_lan_sync,
  require_fingerprint, pull_bundle, push_bundle, open_remote_payload, forced,
}
use abracadabra.Usb.LanClient.Acts.{
  apply_lan_sync, SyncOutcome, carry_out, keep_local, write_merge, push_vault, sealed,
}
use abracadabra.Usb.LanClient.Payload.{
  Pulled, pull_projects, check_requested, check_payload, extras,
}
use abracadabra.Usb.LanClient.Scoped.{
  scoped_lan_sync, load_vault_for_scoped, save_scoped, approve_once,
}
use abracadabra.Usb.LanClient.Agreement.{vault_after, sent}
use abracadabra.Usb.LanClient.Safety.{MayDo, apply_lan_sync-MayDo}
use abracadabra.Usb.LanClient.Outcome.{Settled, apply_lan_sync-Settled}
use abracadabra.Usb.LanClient.Unreported.{unreported_changes_lost}
use abracadabra.Usb.LanClient.OneWay.{IsOneWay, scoped_lan_sync-IsOneWay}

sync_run : Unit {0}
unfolding apply_lan_sync carry_out keep_local write_merge push_vault push_bundle sealed
    plan_lan_sync require_fingerprint pull_bundle open_remote_payload forced open_bundle
    decrypt_payload derive_key seal_bundle is_scoped_payload decrypt_envelope decrypt_vault
    load_sync_state lan_peer_id three_way_merge keep_device_local without_device_local
    merge_projects merge_scopes sort key_set contains insert merge_project one_sided Maps.get
    Maps.set merge_var_maps merged_at merge_entry entry_eq merge_connections merge_providers
    merge_connection spread merge_passkeys merge_api_keys merge_report trim
sync_run = tt

scoped_run : Unit {0}
unfolding scoped_lan_sync pull_projects load_vault_for_scoped save_scoped approve_once
    check_requested check_payload extras require_fingerprint pull_bundle open_any_bundle
    decrypt_payload derive_key is_scoped_payload assert_scope_names_allowed clean_names is_reserved
    merge_scoped_projects merge_scoped_loop merge_scoped_project merge_scoped_vars
    merge_scoped_entry entry_content_eq key_set contains Maps.get Maps.set trim
scoped_run = tt

-- Ciphers that leave the text as it is.
abbrev suite : Suite
suite = record {
  vaults = record { Blob = Vault; seal = λ key iv v. v; unseal = λ key b. some b };
  bundles = record {
    Blob = BundlePayload (VaultEnvelope Vault);
    seal = λ key iv p. p;
    unseal = λ key b. some b;
  };
  scrypt = λ pass kdf. [];
  nfkc = λ s. s;
}

abbrev sealing : Sealing
sealing = record { now = 7; hostname = "laptop"; device_id = "client"; salt = []; iv = 1 }

abbrev entry : String → VarEntry
entry v = record { value = v; secret = true; updated_at = 1 }

abbrev shop : String → Map Project
shop token = ("shop", record { created_at = 1; vars = ("TOKEN", entry token) ∷ [] }) ∷ []

abbrev connected : String → Map Connection
connected token =
    (
      "github",
      record {
        provider = "github";
        label = none;
        created_at = 1;
        meta = [];
        vars = ("TOKEN", entry token) ∷ [];
      },
    )
    ∷ []

abbrev ours : Vault
ours = record empty_vault { projects = shop "old"; connections = some (connected "") }

-- The host has a new variable of a project.
abbrev remote : Vault
remote = record ours { projects = shop "new" }

-- The host has a token for the connection, ours has none yet.
abbrev rotated : Vault
rotated = record ours { connections = some (connected "new") }

abbrev bundle_of_vault : Vault → Bundle suite
bundle_of_vault v = record {
  format = "abracadabra-backup";
  meta = record { created_at = 5; hostname = "host"; device_id = some "desk"; lineage_id = none };
  kind = none;
  kdf = kdf_of sealing (record { n = none; r = none; p = none; key_len = none });
  sealed = full_payload (record { format = none; blob = v }) [] (some "desk") none sealing;
}

abbrev bundle_of_projects : Map Project → List String → Bundle suite
bundle_of_projects ps names = record {
  format = "abracadabra-backup";
  meta = record { created_at = 5; hostname = "host"; device_id = some "desk"; lineage_id = none };
  kind = none;
  kdf = kdf_of sealing (record { n = none; r = none; p = none; key_len = none });
  sealed = scoped_payload ps names sealing;
}

abbrev serves : Bundle suite → Network (Bundle suite)
serves b = record {
  pull = λ fp pin ps. answered 200 (some b);
  push = λ fp pin c. answered 200 none;
}

-- The last sync with the host left `ours`.
abbrev machine : Local
machine = record {
  vault = ok ours;
  vault_later = ok ours;
  bases = some (("lan:desk", record { last_sync_at = 3; base = ours }) ∷ []);
  approves = true;
  saves = true;
  saves_state = true;
  master_key = some [];
  passphrase_file = false;
  sealing = sealing;
}

abbrev no_project : Vault
no_project = record ours { projects = [] }

-- Without leave to delete nothing is done, not even a question.
deletion_test :
    (apply_lan_sync suite
      (serves (bundle_of_vault no_project))
      machine
      "123456"
      none
      (some "fp")
      false).0
    ≡ []
unfolding sync_run
deletion_test = refl

abbrev updated : SyncOutcome
updated = record { changed = true; report = vars_changed "shop" 1 1 ∷ [] }

sync_remote :
    (apply_lan_sync suite
      (serves (bundle_of_vault remote))
      machine
      "123456"
      none
      (some "fp")
      false).1
    ≡ ok updated
unfolding sync_run
sync_remote = refl

abbrev unchanged : SyncOutcome
unchanged = record { changed = false; report = [] }

sync_rotated :
    (apply_lan_sync suite
      (serves (bundle_of_vault rotated))
      machine
      "123456"
      none
      (some "fp")
      false).1
    ≡ ok unchanged
unfolding sync_run
sync_rotated = refl

abbrev remote_rotated : Remote
remote_rotated = record { vault = rotated; device_id = some "desk" }

apply_lan_sync-MayDo_example :
    All
      (MayDo suite (serves (bundle_of_vault remote)) machine "123456" none (some "fp") false)
      (apply_lan_sync suite
        (serves (bundle_of_vault remote))
        machine
        "123456"
        none
        (some "fp")
        false).0
apply_lan_sync-MayDo_example =
    apply_lan_sync-MayDo suite (serves (bundle_of_vault remote)) machine "123456" none (some "fp")
      false

apply_lan_sync-Settled_example :
    (plan : Plan) × (plan_lan_sync suite
        (serves (bundle_of_vault remote))
        machine
        "123456"
        none
        (some "fp")
        false
      ≡ ok plan)
    × Settled suite
        (serves (bundle_of_vault remote))
        machine
        "123456"
        plan
        (apply_lan_sync suite
          (serves (bundle_of_vault remote))
          machine
          "123456"
          none
          (some "fp")
          false).0
        updated
apply_lan_sync-Settled_example =
    apply_lan_sync-Settled suite (serves (bundle_of_vault remote)) machine "123456" none (some "fp")
      false updated (λ key iv v. refl) (λ key iv v. refl) sync_remote

-- No project differs, so the merge has no line for one.
no_lines :
    (k : String)
    → project_line_at ours rotated
        (base_of machine.bases (lan_peer_id (some "desk")))
        (forced none ours rotated (base_of machine.bases (lan_peer_id (some "desk"))))
        k
      ≡ []
unfolding forced load_sync_state lan_peer_id trim project_lines vars_line vars-discrete Maps.get
    merge_var_maps key_set contains merged_at merge_entry entry_eq Maps.set ℕ_discrete
    String-discrete
no_lines k = elim (Bool-cases (str_eq "shop" k)) [ inl e ↦ rw e refl | inr e ↦ rw e refl ]

same_providers :
    (k : String)
    → Maps.has k (get_or ours.connections []) ≡ Maps.has k (get_or rotated.connections [])
unfolding Maps.get
same_providers k = elim (Bool-cases (str_eq "github" k)) [ inl e ↦ rw e refl | inr e ↦ rw e refl ]

planned_rotated :
    plan_lan_sync suite (serves (bundle_of_vault rotated)) machine "123456" none (some "fp") false
    ≡ ok (plan_of "fp" machine ours remote_rotated none)
unfolding sync_run
planned_rotated = refl

unreported_changes_lost_example :
    let ds =
      (apply_lan_sync suite
        (serves (bundle_of_vault rotated))
        machine
        "123456"
        none
        (some "fp")
        false).0 in
    let base = base_of machine.bases (lan_peer_id (some "desk")) in
    (unchanged.changed ≡ false)
    × (vault_after ours ds ≡ ours)
    × ((b : Bundle suite) × (sent ds ≡ b ∷ [])
        × (open_remote_payload suite b "123456"
            ≡ ok (record { vault = without_device_local ours; device_id = some "client" })))
    × (get_or ours.passkeys [] ≡ base_passkeys base
        → (three_way_merge ours rotated base (forced none ours rotated base)).merged.passkeys
          ≡ rotated.passkeys)
unreported_changes_lost_example =
    unreported_changes_lost suite (serves (bundle_of_vault rotated)) machine "123456" none
      (some "fp") unchanged "fp" ours remote_rotated (λ key iv v. refl) (λ key iv v. refl)
      planned_rotated no_lines same_providers sync_rotated

asked_shop : check_requested (requested (some ("shop" ∷ []))) ≡ ok (some ("shop" ∷ []))
unfolding check_requested assert_scope_names_allowed clean_names is_reserved contains trim
asked_shop = refl

scoped_lan_sync-IsOneWay_example :
    All
      (IsOneWay suite
        (serves (bundle_of_projects (shop "new") ("shop" ∷ [])))
        machine
        "123456"
        ("shop" ∷ [])
        false)
      (scoped_lan_sync suite
        (serves (bundle_of_projects (shop "new") ("shop" ∷ [])))
        machine
        "123456"
        (some "fp")
        (some ("shop" ∷ []))
        true
        false).0
scoped_lan_sync-IsOneWay_example =
    scoped_lan_sync-IsOneWay suite (serves (bundle_of_projects (shop "new") ("shop" ∷ []))) machine
      "123456" (some "fp") (some ("shop" ∷ [])) ("shop" ∷ []) true false asked_shop

scoped_test :
    vault_after ours
      (scoped_lan_sync suite
        (serves (bundle_of_projects (shop "new") ("shop" ∷ [])))
        machine
        "123456"
        (some "fp")
        (some ("shop" ∷ []))
        true
        false).0
    ≡ remote
unfolding scoped_run
scoped_test = refl

-- A host that shares `shop` of a vault that has `bank` too.
abbrev kept_vault : Vault
kept_vault = record ours { projects = ("bank", record { created_at = 2; vars = [] }) ∷ shop "old" }

abbrev scoped_host : ActiveHost
scoped_host = new_host "123456" 0 600000 false (some ("shop" ∷ []))

abbrev to_host : Network (Bundle suite)
to_host = record {
  pull = λ fp pin ps. response_of (answer suite [] sealing 5 kept_vault scoped_host pin ps);
  push = λ fp pin b. answered 403 none;
}

abbrev pulled : Pulled
pulled = record { requested_names = some ("shop" ∷ []); projects = shop "old" }

pulled_test : pull_projects suite to_host "123456" (some "fp") (some ("shop" ∷ [])) ≡ ok pulled
unfolding scoped_run handle route pull pull_scoped serve_scoped right_pin extract_pin validate_scope
    unknown extract_scoped_projects extract_loop seal_scoped_bundle seal_payload response_of
    pull_request
pulled_test = refl

pull_projects-shared_example :
    (contains "shop" (map trim ("shop" ∷ [])) ≡ true)
    × (Maps.get "shop" kept_vault.projects
        ≡ some (record { created_at = 1; vars = ("TOKEN", entry "old") ∷ [] }))
unfolding contains Maps.get
pull_projects-shared_example =
    pull_projects-shared suite [] sealing 5 kept_vault scoped_host to_host ("shop" ∷ []) (some "fp")
      (some ("shop" ∷ [])) pulled (λ fp pin names. refl) refl (λ key iv v. refl) pulled_test "shop"
      (record { created_at = 1; vars = ("TOKEN", entry "old") ∷ [] }) refl
