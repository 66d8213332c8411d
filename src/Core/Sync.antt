-- ===== src/Core/Sync.antt =====
-- src/core/sync.ts: the three-way merge of two vaults against the base of their last sync.
-- `JSON.stringify(a) === JSON.stringify(b)` is equality of the values. The lines of the report are
-- in Report; the bases are kept in Bases.
pub mod Vars
pub mod Projects
pub mod Connections
pub mod Whole
pub mod Bases
pub mod Report
mod Tests
use Prim.Native.String.{compare, ◌++◌ as join}
use text.Mathlib.Text.{is_le}
use abracadabra.Common.{
  ℕ, String, str_eq, Bool, true, false, ◌&&◌, not, if◌then◌else◌, Option, none, some, is_some,
  get_or, List, [], ◌∷◌, ◌++◌, ℕ_discrete,
}
use abracadabra.Common.Maps
use abracadabra.Common.Maps.{Map, contains}
use abracadabra.Core.Vault.{
  VarEntry, Project, Connection, PasskeyCredential, ApiKey, Vault, String-discrete,
  passkeys-discrete, api_keys-discrete, keep_device_local, decided,
}

pub record Conflict : Type 0 where
  pub scope : String
  pub key : String
  pub ours : Option VarEntry
  pub theirs : Option VarEntry

pub data Side : Type 0 where
  here peer : Side

pub record ProjectDeletion : Type 0 where
  pub project : String
  pub side : Side

-- By `scope/key`; `none` stands for a deletion.
abbrev pub Resolutions : Type 0
Resolutions = Map (Option VarEntry)

unfoldable pub entry_discrete : Discrete (Option VarEntry)
unfolding ℕ_discrete String-discrete
entry_discrete = hlevel (ℕ_discrete, String-discrete)

unfoldable pub entry_eq : Option VarEntry → Option VarEntry → Bool
unfolding entry_discrete
entry_eq a b = decided (entry_discrete a b)

-- What one turn of the loop of `mergeVarMaps` does with its key.
pub data Merged : Type 0 where
  keep : Option VarEntry → Merged
  conflict : Merged

unfoldable pub merge_entry : (o t b : Option VarEntry) → Option (Option VarEntry) → Merged
merge_entry o t b manual = if entry_eq o t then keep o else elim manual [
  | some v ↦ keep v
  | none ↦ if entry_eq t b then keep o else if entry_eq o b then keep t else conflict
]

-- `merged[key] = entry`, for an entry that is there.
abbrev pub write : String → Merged → Map VarEntry → Map VarEntry
write key (keep (some e)) merged = Maps.set key e merged
write key _ merged = merged

abbrev pub note : Conflict → Merged → List Conflict → List Conflict
note c conflict cs = cs ++ c ∷ []
note c (keep e) cs = cs

-- `new Set(…)` of keys, in order of insertion.
unfoldable pub key_set : List String → List String → List String
key_set seen [] = seen
key_set seen (k ∷ ks) = key_set (if contains k seen then seen else seen ++ k ∷ []) ks

unfoldable pub resolution_key : String → String → String
resolution_key scope key = join scope (join "/" key)

module _ (scope : String) (ours theirs base : Map VarEntry) (resolutions : Resolutions) where
  unfoldable pub merged_at : String → Merged
  merged_at key =
      merge_entry (Maps.get key ours) (Maps.get key theirs) (Maps.get key base)
        (Maps.get (resolution_key scope key) resolutions)

  abbrev pub conflict_at : String → Conflict
  conflict_at key = record {
    scope = scope;
    key = key;
    ours = Maps.get key ours;
    theirs = Maps.get key theirs;
  }

  unfoldable pub merge_keys :
      List String → Map VarEntry → List Conflict → Map VarEntry × List Conflict
  merge_keys [] merged conflicts = (merged, conflicts)
  merge_keys (key ∷ rest) merged conflicts =
      merge_keys rest (write key (merged_at key) merged)
        (note (conflict_at key) (merged_at key) conflicts)

  -- `conflicts` is the array that the caller passes.
  unfoldable pub merge_var_maps : List Conflict → Map VarEntry × List Conflict
  unfolding merge_keys
  merge_var_maps conflicts =
      merge_keys (key_set [] (Maps.keys ours ++ Maps.keys theirs)) [] conflicts
