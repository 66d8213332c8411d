-- ===== src/Core/Vault.antt =====
-- src/core/vault.ts: the vault as the merges see it, and the fields that stay on the machine.
use abracadabra.Common.{
  ℕ, String, str_eq, eq_iff, Bool, true, false, ◌≡◌, refl, Option, none, some, List, [], arith,
  ℕ_discrete, is_some, ◌||◌,
}
use abracadabra.Common.Maps
use abracadabra.Common.Maps.{Map}

pub record VarEntry : Type 0 where
  pub value : String
  pub secret : Bool
  pub updated_at : ℕ

pub record Project : Type 0 where
  pub created_at : ℕ
  pub vars : Map VarEntry

pub record Connection : Type 0 where
  pub provider : String
  pub label : Option String
  pub created_at : ℕ
  pub meta : Map String
  pub vars : Map VarEntry

pub record PasskeyCredential : Type 0 where
  pub id : String
  pub public_key : String
  pub counter : ℕ
  pub rp_id : String
  pub label : Option String
  pub created_at : ℕ

pub data GithubPermissionLevel : Type 0 where
  read write : GithubPermissionLevel

pub record GithubGrant : Type 0 where
  pub repositories : List String
  pub permissions : Map GithubPermissionLevel

pub record ApiKey : Type 0 where
  pub id : String
  pub name : String
  pub key_hash : String
  pub prefix : String
  pub projects : Option (List String)
  pub created_at : ℕ
  pub expires_at : Option ℕ
  pub github : Option GithubGrant

pub record SyncIdentity : Type 0 where
  pub id : String
  pub created_at : ℕ
  pub ed25519_public : String
  pub ed25519_private : String
  pub x25519_public : String
  pub x25519_private : String

pub data SyncPeerRole : Type 0 where
  source receiver : SyncPeerRole

pub record SyncPeer : Type 0 where
  pub name : String
  pub id_fingerprint : String
  pub ed25519 : String
  pub x25519 : String
  pub role : SyncPeerRole
  pub paired_at : ℕ
  pub last_address : Option String

pub record Vault : Type 0 where
  pub projects : Map Project
  pub connections : Option (Map Connection)
  pub passkeys : Option (List PasskeyCredential)
  pub api_keys : Option (Map ApiKey)
  pub sync_identity : Option SyncIdentity
  pub sync_peers : Option (Map SyncPeer)

abbrev pub empty_vault : Vault
empty_vault = record {
  projects = [];
  connections = some [];
  passkeys = none;
  api_keys = none;
  sync_identity = none;
  sync_peers = none;
}

abbrev pub vars_of : Option Project → Map VarEntry
vars_of (some p) = p.vars
vars_of none = []

-- A variable of a project, in a vault.
abbrev pub var_in : Option Project → String → Option VarEntry
var_in p j = Maps.get j (vars_of p)

abbrev pub var_at : Vault → (project key : String) → Option VarEntry
var_at v k j = var_in (Maps.get k v.projects) j

unfoldable pub without_device_local : Vault → Vault
without_device_local v = record v { sync_identity = none; sync_peers = none }

unfoldable pub keep_device_local : Vault → Vault → Vault
unfolding without_device_local
keep_device_local incoming local = record (without_device_local incoming) {
  sync_identity = local.sync_identity;
  sync_peers = local.sync_peers;
}

unfoldable pub has_device_local : Vault → Bool
has_device_local v = is_some v.sync_identity || is_some v.sync_peers

String-cases : (s t : String) (b : Bool) → str_eq s t ≡ b → Dec (s ≡ t)
String-cases s t true e = yes ((eq_iff s t).0 e)
String-cases s t false e = no (λ p. ground (arith, eq_iff s t))

unfoldable pub String-discrete : Discrete String
unfolding String-cases
String-discrete s t = String-cases s t (str_eq s t) refl

unfoldable pub VarEntry-discrete : Discrete VarEntry
unfolding ℕ_discrete String-discrete
VarEntry-discrete = hlevel (ℕ_discrete, String-discrete)

unfoldable pub passkeys-discrete : Discrete (List PasskeyCredential)
unfolding ℕ_discrete String-discrete
passkeys-discrete = hlevel (ℕ_discrete, String-discrete)

unfoldable pub api_keys-discrete : Discrete (Map ApiKey)
unfolding ℕ_discrete String-discrete
api_keys-discrete = hlevel (ℕ_discrete, String-discrete)

abbrev pub decided {ℓ} : {A : Type ℓ} → Dec A → Bool
decided (yes a) = true
decided (no n) = false

abbrev e1 : VarEntry
e1 = record { value = "x"; secret = true; updated_at = 3 }

abbrev e2 : VarEntry
e2 = record { value = "x"; secret = true; updated_at = 4 }

discrete_test :
    (decided (VarEntry-discrete e1 e1) ≡ true) × (decided (VarEntry-discrete e1 e2) ≡ false)
unfolding VarEntry-discrete
discrete_test = (refl, refl)
