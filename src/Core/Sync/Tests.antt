-- ===== src/Core/Sync/Tests.antt =====
-- Merges of small vaults, run.
use abracadabra.Common.{String, true, ◌≡◌, ◌↔◌, refl, none, some, [], ◌∷◌}
use abracadabra.Common.Maps
use abracadabra.Common.Maps.{Map, has, contains}
use abracadabra.Core.Vault.{
  var_at, VarEntry, Project, Connection, Vault, empty_vault, SyncIdentity, keep_device_local,
}
use abracadabra.Core.Sync.{
  peer, merge_var_maps, resolution_key, key_set, merged_at, merge_entry, entry_eq,
}
use abracadabra.Core.Sync.Vars.{
  Resolved, Clash, conflict_keys, merge_var_maps-Resolved, conflict_iff,
}
use abracadabra.Core.Sync.Projects.{
  merge_scopes, sort, insert, merge_project, one_sided, merge_projects, merge_projects-get,
}
use abracadabra.Core.Sync.Whole.{three_way_merge, unchanged_peer}

abbrev entry : String → VarEntry
entry v = record { value = v; secret = true; updated_at = 3 }

abbrev vars_base : Map VarEntry
vars_base = ("A", entry "1") ∷ ("B", entry "1") ∷ ("C", entry "1") ∷ []

abbrev vars_ours : Map VarEntry
vars_ours = ("A", entry "2") ∷ ("B", entry "1") ∷ ("C", entry "2") ∷ []

abbrev vars_theirs : Map VarEntry
vars_theirs = ("A", entry "1") ∷ ("C", entry "3") ∷ ("D", entry "4") ∷ []

abbrev project_of : Map VarEntry → Project
project_of vars = record { created_at = 7; vars = vars }

abbrev connection_of : String → Connection
connection_of p = record {
  provider = p;
  label = none;
  created_at = 1;
  meta = ("user", "me") ∷ [];
  vars = vars_base;
}

abbrev identity : SyncIdentity
identity = record {
  id = "i";
  created_at = 1;
  ed25519_public = "a";
  ed25519_private = "b";
  x25519_public = "c";
  x25519_private = "d";
}

abbrev vault_base : Vault
vault_base = record empty_vault {
  projects = ("app", project_of vars_base) ∷ ("old", project_of []) ∷ [];
}

abbrev vault_ours : Vault
vault_ours = record empty_vault {
  projects = ("app", project_of vars_ours) ∷ ("old", project_of []) ∷ [];
  connections = some (("github", connection_of "github") ∷ []);
  sync_identity = some identity;
}

abbrev vault_theirs : Vault
vault_theirs = record empty_vault {
  projects = ("app", project_of vars_theirs) ∷ ("new", project_of []) ∷ [];
}

-- A changed here, B was deleted there, C changed on both sides, D is new there.
merge_test : merge_var_maps "app" vars_ours vars_theirs vars_base [] [] ≡ (
  (("A", entry "2") ∷ ("D", entry "4") ∷ []),
  record { scope = "app"; key = "C"; ours = some (entry "2"); theirs = some (entry "3") } ∷ [],
)
unfolding merge_var_maps key_set contains merged_at merge_entry entry_eq Maps.get Maps.set
merge_test = refl

sorted_test :
    Maps.keys (three_way_merge vault_ours vault_theirs none []).merged.projects
    ≡ "app" ∷ "new" ∷ "old" ∷ []
unfolding three_way_merge keep_device_local merge_projects merge_scopes sort key_set contains insert
    merge_project Maps.get one_sided Maps.set
sorted_test = refl

deletion_test :
    (three_way_merge vault_ours vault_theirs (some vault_base) []).project_deletions
    ≡ record { project = "old"; side = peer } ∷ []
unfolding three_way_merge merge_projects merge_scopes sort key_set contains insert merge_project
    Maps.get one_sided Maps.set
deletion_test = refl

merge_var_maps-Resolved_example :
    Resolved
      (Maps.get "C" vars_ours)
      (Maps.get "C" vars_theirs)
      (Maps.get "C" vars_base)
      (Maps.get (resolution_key "app" "C") [])
      (Maps.get "C" (merge_var_maps "app" vars_ours vars_theirs vars_base [] []).0)
merge_var_maps-Resolved_example =
    merge_var_maps-Resolved "app" vars_ours vars_theirs vars_base [] "C" []

conflict_iff_example :
    (contains "C" (conflict_keys (merge_var_maps "app" vars_ours vars_theirs vars_base [] []).1)
      ≡ true)
    ↔ Clash
        (Maps.get "C" vars_ours)
        (Maps.get "C" vars_theirs)
        (Maps.get "C" vars_base)
        (Maps.get (resolution_key "app" "C") [])
conflict_iff_example = conflict_iff "app" vars_ours vars_theirs vars_base [] "C"

merge_projects-get_example :
    Maps.get "new"
      (merge_projects vault_ours.projects vault_theirs.projects vault_base.projects [] []).projects
    ≡ some (project_of [])
unfolding Maps.get
merge_projects-get_example =
    merge_projects-get vault_ours.projects vault_theirs.projects vault_base.projects [] "new" []

unchanged_peer_example :
    (var_at (three_way_merge vault_ours vault_base (some vault_base) []).merged "app" "A"
      ≡ some (entry "2"))
    × (has "app" (three_way_merge vault_ours vault_base (some vault_base) []).merged.projects
        ≡ true)
unfolding Maps.get
unchanged_peer_example = unchanged_peer vault_ours vault_base "app" "A"
