-- ===== src/Core/Sync/Whole.antt =====
-- The merge of two vaults, `threeWayMerge`.
use abracadabra.Common.{
  String, false, ◌||◌, ◌≡◌, refl, ◌∙◌, if◌then◌else◌, Option, none, some, is_some, get_or, List, [],
  arith,
}
use abracadabra.Common.Maps
use abracadabra.Common.Maps.{Map, has}
use abracadabra.Core.Vault.{
  var_in, var_at, VarEntry, Project, Connection, PasskeyCredential, ApiKey, Vault,
  keep_device_local, without_device_local, passkeys-discrete, api_keys-discrete, decided,
}
use abracadabra.Core.Sync.{
  Conflict, Resolutions, ProjectDeletion, Side, here, peer, merge_entry, merged_at, merge_var_maps,
}
use abracadabra.Core.Sync.Vars.{value, entry_eq_iff, merge_var_maps-get}
use abracadabra.Core.Sync.Projects.{
  merge_projects, merge_projects-get, merge_projects-reports, outcome, reports, deleted,
}
use abracadabra.Core.Sync.Connections.{merge_connections, merge_connections-has}

pub record Merge : Type 0 where
  pub merged : Vault
  pub conflicts : List Conflict
  pub project_deletions : List ProjectDeletion

abbrev pub base_projects : Option Vault → Map Project
base_projects (some b) = b.projects
base_projects none = []

abbrev pub base_connections : Option Vault → Map Connection
base_connections (some b) = get_or b.connections []
base_connections none = []

abbrev pub base_passkeys : Option Vault → List PasskeyCredential
base_passkeys (some b) = get_or b.passkeys []
base_passkeys none = []

abbrev pub base_api_keys : Option Vault → Map ApiKey
base_api_keys (some b) = get_or b.api_keys []
base_api_keys none = []

unfoldable pub merge_passkeys :
    (ours theirs : Vault) → Option Vault → Option (List PasskeyCredential)
unfolding passkeys-discrete
merge_passkeys ours theirs base =
    if decided (passkeys-discrete (get_or ours.passkeys []) (base_passkeys base))
    then theirs.passkeys
    else ours.passkeys

unfoldable pub merge_api_keys : (ours theirs : Vault) → Option Vault → Option (Map ApiKey)
unfolding api_keys-discrete
merge_api_keys ours theirs base =
    if decided (api_keys-discrete (get_or ours.api_keys []) (base_api_keys base))
    then theirs.api_keys
    else ours.api_keys

unfoldable pub three_way_merge : (ours theirs : Vault) → Option Vault → Resolutions → Merge
three_way_merge ours theirs base resolutions =
    let projects =
      merge_projects ours.projects theirs.projects (base_projects base) resolutions [] in
    let conns =
      merge_connections (get_or ours.connections []) (get_or theirs.connections [])
        (base_connections base) resolutions projects.conflicts in
    record {
      merged =
          keep_device_local
            (record {
              projects = projects.projects;
              connections = some conns.0;
              passkeys = merge_passkeys ours theirs base;
              api_keys = merge_api_keys ours theirs base;
              sync_identity = none;
              sync_peers = none;
            })
            ours;
      conflicts = conns.1;
      project_deletions = projects.project_deletions;
    }

merge_entry-unchanged :
    (o t : Option VarEntry)
    → (value (merge_entry o t t none) ≡ o) × (value (merge_entry o t o none) ≡ t)
unfolding merge_entry
merge_entry-unchanged o t =
    ground (arith, entry_eq_iff o t, entry_eq_iff t o, entry_eq_iff t t, entry_eq_iff o o)

vars-unchanged :
    (k j : String) (o t : Map VarEntry)
    → (Maps.get j (merge_var_maps k o t t [] []).0 ≡ Maps.get j o)
      × (Maps.get j (merge_var_maps k o t o [] []).0 ≡ Maps.get j t)
unfolding merged_at Maps.get
vars-unchanged k j o t =
    rw (merge_var_maps-get k o t t [] j [], merge_var_maps-get k o t o [] j [])
      (merge_entry-unchanged (Maps.get j o) (Maps.get j t))

outcome-ours :
    (k j : String) (o t : Option Project)
    → (var_in (outcome [] k o t t) j ≡ var_in o j) × (is_some (outcome [] k o t t) ≡ is_some o)
outcome-ours k j (some o) (some t) = ((vars-unchanged k j o.vars t.vars).0, refl)
outcome-ours k j (some o) none = (refl, refl)
outcome-ours k j none (some t) = (refl, refl)
outcome-ours k j none none = (refl, refl)

outcome-theirs :
    (k j : String) (o t : Option Project)
    → (var_in (outcome [] k o t o) j ≡ var_in t j) × (is_some (outcome [] k o t o) ≡ is_some t)
outcome-theirs k j (some o) (some t) = ((vars-unchanged k j o.vars t.vars).1, refl)
outcome-theirs k j (some o) none = (refl, refl)
outcome-theirs k j none (some t) = (refl, refl)
outcome-theirs k j none none = (refl, refl)

outcome-first :
    (resolutions : Resolutions) (k : String) (o t : Option Project)
    → is_some (outcome resolutions k o t none) ≡ (is_some o || is_some t)
outcome-first resolutions k (some o) (some t) = refl
outcome-first resolutions k (some o) none = refl
outcome-first resolutions k none (some t) = refl
outcome-first resolutions k none none = refl

deleted-first : (side : Side) (o t : Option Project) → deleted side o t none ≡ false
deleted-first here (some o) (some t) = refl
deleted-first peer (some o) (some t) = refl
deleted-first here (some o) none = refl
deleted-first peer (some o) none = refl
deleted-first here none (some t) = refl
deleted-first peer none (some t) = refl
deleted-first here none none = refl
deleted-first peer none none = refl

abbrev pub stripped : Option Vault → Option Vault
stripped (some b) = some (without_device_local b)
stripped none = none

module _ (ours theirs : Vault) where
  pub merged-projects :
      (base : Option Vault) (resolutions : Resolutions) (k : String)
      → Maps.get k (three_way_merge ours theirs base resolutions).merged.projects
        ≡ outcome resolutions k
            (Maps.get k ours.projects)
            (Maps.get k theirs.projects)
            (Maps.get k (base_projects base))
  unfolding three_way_merge keep_device_local
  merged-projects base resolutions k =
      merge_projects-get ours.projects theirs.projects (base_projects base) resolutions k []

  -- A merge with a peer that changed nothing since the last sync, without resolutions, leaves our
  -- projects and their variables as they are: `threeWayMerge` has a project exactly when we have,
  -- and each of its variables is ours.
  pub unchanged_peer :
      (k j : String)
      → (var_at (three_way_merge ours theirs (some theirs) []).merged k j ≡ var_at ours k j)
        × (has k (three_way_merge ours theirs (some theirs) []).merged.projects
            ≡ has k ours.projects)
  unchanged_peer k j =
      rw (merged-projects (some theirs) [] k)
        (outcome-ours k j (Maps.get k ours.projects) (Maps.get k theirs.projects))

  -- A merge when we changed nothing since the last sync, without resolutions, takes the peer's
  -- projects and their variables.
  pub unchanged_here :
      (k j : String)
      → (var_at (three_way_merge ours theirs (some ours) []).merged k j ≡ var_at theirs k j)
        × (has k (three_way_merge ours theirs (some ours) []).merged.projects
            ≡ has k theirs.projects)
  unchanged_here k j =
      rw (merged-projects (some ours) [] k)
        (outcome-theirs k j (Maps.get k ours.projects) (Maps.get k theirs.projects))

  -- The first merge with a peer only adds: without a base, `threeWayMerge` has every project and
  -- every connection that one of the machines has, and reports no project as deleted.
  pub first_merge :
      (resolutions : Resolutions) (k : String)
      → (has k (three_way_merge ours theirs none resolutions).merged.projects
          ≡ (has k ours.projects || has k theirs.projects))
        × (has k (get_or (three_way_merge ours theirs none resolutions).merged.connections [])
            ≡ (has k (get_or ours.connections []) || has k (get_or theirs.connections [])))
        × ((side : Side)
            → reports k side (three_way_merge ours theirs none resolutions).project_deletions
              ≡ false)
  unfolding three_way_merge keep_device_local Maps.get
  first_merge resolutions k =
      let os = ours.projects in
      let ts = theirs.projects in
      (
        rw (merge_projects-get os ts [] resolutions k [])
            (outcome-first resolutions k (Maps.get k os) (Maps.get k ts)),
        merge_connections-has _ _ [] resolutions k _,
        λ side.
            merge_projects-reports os ts [] resolutions k side []
            ∙ deleted-first side (Maps.get k os) (Maps.get k ts),
      )

  -- The device-local fields of the merge are ours, and those of the peer and of the base play no
  -- part in `threeWayMerge`: without them the whole result is the same.
  pub three_way_merge-device_local :
      (base : Option Vault) (resolutions : Resolutions)
      → ((three_way_merge ours theirs base resolutions).merged.sync_identity ≡ ours.sync_identity)
        × ((three_way_merge ours theirs base resolutions).merged.sync_peers ≡ ours.sync_peers)
        × (three_way_merge ours theirs base resolutions
            ≡ three_way_merge ours (without_device_local theirs) (stripped base) resolutions)
  unfolding three_way_merge keep_device_local without_device_local merge_passkeys merge_api_keys
  three_way_merge-device_local none resolutions = (refl, refl, refl)
  three_way_merge-device_local (some b) resolutions = (refl, refl, refl)
