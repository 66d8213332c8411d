-- ===== src/Usb/LanHost.antt =====
-- src/usb/lan-host.ts: the requests of a host that shares its vault. What a body holds is what
-- JSON.parse gave; the bundles of core/backup.ts are a parameter, and so is the NFKC of timingSafePin.
-- A push waits for the approval of the user, and other steps may come before that. The vault can be
-- read and written; the listening, the advertising and what is shown are left out.
pub mod Access
pub mod Gate
pub mod Locking
pub mod Sharing
mod Tests
use text.Mathlib.Text.{starts_with}
use abracadabra.Common.{
  ℕ, ◌+◌, zero, suc, leb, ltb, String, str_eq, Bool, true, false, ◌&&◌, not, if◌then◌else◌, Option,
  none, some, is_some, List, [], ◌∷◌, Result, ok, err,
}
use abracadabra.Common.Maps
use abracadabra.Common.Maps.{Map, has, contains}
use abracadabra.Common.Texts.{trim}
use abracadabra.Core.Vault.{Vault, Project, keep_device_local}
use abracadabra.Core.Scope.{
  ScopeError, unknown_projects, assert_scope_names_allowed, validate_scope, extract_scoped_projects,
}
use abracadabra.Core.Sync.Bases.{SyncFile, save_sync_state, lan_peer_id}

abbrev pub lan_pin_max_failures : ℕ
lan_pin_max_failures = 8

-- What openBundle gives: the vault, `none` where decryptEnvelope throws.
pub record Payload : Type 0 where
  pub vault : Option Vault
  pub device_id : Option String

pub record Bundles (B : Type 0) : Type 0 where
  pub seal_full : Vault → (pin : String) → B
  pub seal_scoped : Map Project → List String → (pin : String) → B
  pub open_bundle : B → (pin : String) → Option Payload

-- `active` says that this host is the module's active one.
pub record ActiveHost : Type 0 where
  pub active : Bool
  pub pin : String
  pub expires_at : ℕ
  pub fail_count : ℕ
  pub locked : Bool
  pub pulled : Bool
  pub allow_deletes : Bool
  pub scope : Option (List String)

-- `projects` is there where it is an array, and `bundle` where it is truthy.
pub record Body (B : Type 0) : Type 0 where
  pub projects : Option (List String)
  pub bundle : Option B

-- `body` is `none` where readJson throws.
pub record LanRequest (B : Type 0) : Type 0 where
  pub method : String
  pub path : String
  pub authorization : Option String
  pub body : Option (Body B)

-- `refused` carries the status.
pub data LanReply (B : Type 0) : Type 0 where
  refused : ℕ → LanReply B
  info : LanReply B
  served : B → LanReply B
  would_delete : List String → LanReply B
  applied : LanReply B

pub data Answer (B : Type 0) : Type 0 where
  reply : LanReply B → Answer B
  -- the approval of the user is asked for, to apply this vault of this device
  ask_approval : Vault → Option String → Answer B

abbrev drop : ℕ → String → String
drop n String.[] = String.[]
drop zero (String.◌∷◌ c s) = String.◌∷◌ c s
drop (suc n) (String.◌∷◌ c s) = drop n s

unfoldable pub extract_pin : Option String → String
extract_pin none = ""
extract_pin (some auth) = if starts_with auth "Bearer " then trim (drop 7 auth) else ""

unfoldable pub stop_lan_host : ActiveHost → ActiveHost
stop_lan_host h = record h { active = false }

unfoldable pub count_failure : ActiveHost → ActiveHost
count_failure h =
    let failed = record h { fail_count = suc h.fail_count } in
    if leb lan_pin_max_failures failed.fail_count then record failed { locked = true } else failed

-- An empty list asks for everything.
abbrev pub requested : Option (List String) → Option (List String)
requested none = none
requested (some []) = none
requested (some (n ∷ ns)) = some (n ∷ ns)

abbrev pub outside : List String → (scope : List String) → List String
outside [] scope = []
outside (n ∷ ns) scope = if contains n scope then outside ns scope else n ∷ outside ns scope

-- The projects of `current` that `vault` lacks.
abbrev pub removed : (current vault : Map Project) → List String
removed [] vault = []
removed ((n, p) ∷ current) vault =
    if has n vault then removed current vault else n ∷ removed current vault

module _ {B : Type 0} (bundles : Bundles B) (nfkc : String → String) where
  open bundles use {seal_full, seal_scoped, open_bundle}

  unfoldable pub right_pin : ActiveHost → LanRequest B → Bool
  right_pin h req = str_eq h.pin (nfkc (extract_pin req.authorization))

  -- `buildScopedSealedBundle`; what it throws becomes 500.
  unfoldable pub serve_scoped : Vault → List String → ActiveHost → ActiveHost × Answer B
  serve_scoped vault names h = elim (validate_scope vault names) [
    | err e ↦ (h, reply (refused 500))
    | ok validated ↦ elim (extract_scoped_projects vault validated) [
      | err e ↦ (h, reply (refused 500))
      | ok projects ↦
          (record h { pulled = true }, reply (served (seal_scoped projects validated h.pin)))
    ]
  ]

  -- A pull from a host that shares `scope` only.
  unfoldable pub pull_scoped :
      Vault → (scope : List String) → Option (List String) → ActiveHost → ActiveHost × Answer B
  pull_scoped vault scope none h = serve_scoped vault scope h
  pull_scoped vault scope (some names) h = elim (assert_scope_names_allowed names) [
    | err e ↦ (h, reply (refused 403))
    | ok cleaned ↦ elim (outside cleaned scope) [
      | n ∷ ns ↦ (h, reply (refused 403))
      | [] ↦ serve_scoped vault cleaned h
    ]
  ]

  -- The status for what validateScope throws.
  abbrev pub scope_status : ScopeError → ℕ
  scope_status (unknown_projects ns) = 404
  scope_status _ = 400

  unfoldable pub pull_full : Vault → Option (List String) → ActiveHost → ActiveHost × Answer B
  pull_full vault none h = (record h { pulled = true }, reply (served (seal_full vault h.pin)))
  pull_full vault (some names) h = elim (assert_scope_names_allowed names) [
    | err e ↦ (h, reply (refused 403))
    | ok cleaned ↦ elim (validate_scope vault cleaned) [
      | err e ↦ (h, reply (refused (scope_status e)))
      | ok known ↦ serve_scoped vault known h
    ]
  ]

  unfoldable pub pull : Vault → LanRequest B → ActiveHost → ActiveHost × Answer B
  pull vault req h =
      if not (right_pin h req) then (count_failure h, reply (refused 401)) else elim req.body [
        | none ↦ (h, reply (refused 500))
        | some body ↦ elim h.scope [
          | some scope ↦ pull_scoped vault scope (requested body.projects) h
          | none ↦ pull_full vault (requested body.projects) h
        ]
      ]

  -- The delete gate, for the vault that the push brings.
  unfoldable pub gate : (current vault : Vault) → Option String → ActiveHost → Answer B
  gate current vault device_id h =
      if h.allow_deletes
      then ask_approval vault device_id
      else elim (removed current.projects vault.projects) [
        | [] ↦ ask_approval vault device_id
        | n ∷ ns ↦ reply (would_delete (n ∷ ns))
      ]

  unfoldable pub push_bundle : Vault → Option B → ActiveHost → Answer B
  push_bundle current none h = reply (refused 400)
  push_bundle current (some b) h = elim (open_bundle b h.pin) [
    | none ↦ reply (refused 400)
    | some payload ↦ elim payload.vault [
      | none ↦ reply (refused 500)
      | some v ↦ gate current (keep_device_local v current) payload.device_id h
    ]
  ]

  unfoldable pub push : Vault → LanRequest B → ActiveHost → ActiveHost × Answer B
  push current req h =
      if is_some h.scope
      then (h, reply (refused 403))
      else if not (right_pin h req)
      then (count_failure h, reply (refused 401))
      else elim req.body [
        | none ↦ (h, reply (refused 500))
        | some body ↦ (h, push_bundle current body.bundle h)
      ]

  unfoldable pub route : Vault → LanRequest B → ActiveHost → ActiveHost × Answer B
  route vault req h =
      if str_eq req.method "GET" && str_eq req.path "/lan/info"
      then (h, reply info)
      else if str_eq req.method "POST" && str_eq req.path "/lan/pull"
      then pull vault req h
      else if str_eq req.method "POST" && str_eq req.path "/lan/push"
      then push vault req h
      else (h, reply (refused 404))

  -- `vault` is what loadVault gives. The checks of a request and its answer are one step: that the body
  -- of a request may come later, when other requests have been counted or the host was stopped, is
  -- left out.
  unfoldable pub handle : (now : ℕ) → Vault → LanRequest B → ActiveHost → ActiveHost × Answer B
  handle now vault req h =
      if not h.active
      then (h, reply (refused 503))
      else if ltb h.expires_at now
      then (stop_lan_host h, reply (refused 410))
      else if h.locked
      then (h, reply (refused 429))
      else route vault req h

-- What the machine keeps: its vault, and the bases of its syncs.
pub record Store : Type 0 where
  pub vault : Vault
  pub bases : SyncFile

-- After the approval, which throws where the user refuses.
unfoldable pub apply_push :
    {B : Type 0} (approved : Bool) (vault : Vault) (device_id : Option String) (now : ℕ)
    → ActiveHost × Store
    → (ActiveHost × Store) × LanReply B
apply_push false vault device_id now hs = (hs, refused 500)
apply_push true vault device_id now (h, s) = (
  (
    stop_lan_host h,
    record { vault = vault; bases = save_sync_state s.bases (lan_peer_id device_id) vault now },
  ),
  applied,
)

pub data StartError : Type 0 where
  bad_scope : ScopeError → StartError
  not_approved : StartError

abbrev pub new_host :
    (pin : String) (now ttl_ms : ℕ) (allow_deletes : Bool) → Option (List String) → ActiveHost
new_host pin now ttl_ms allow_deletes scope = record {
  active = true;
  pin = pin;
  expires_at = now + ttl_ms;
  fail_count = 0;
  locked = false;
  pulled = false;
  allow_deletes = allow_deletes;
  scope = scope;
}

-- The names of a scope are refused before the user is asked, and unknown ones after that.
unfoldable pub start_lan_host :
    Vault
    → (projects : Option (List String)) → (approved : Bool) → (pin : String) (now ttl_ms : ℕ)
    → (allow_deletes : Bool) → Result StartError ActiveHost
start_lan_host vault projects approved pin now ttl_ms allow_deletes = elim (requested projects) [
  | none ↦ if approved then ok (new_host pin now ttl_ms allow_deletes none) else err not_approved
  | some names ↦ elim (assert_scope_names_allowed names) [
    | err e ↦ err (bad_scope e)
    | ok cleaned ↦ if not approved then err not_approved else elim (validate_scope vault cleaned) [
      | err e ↦ err (bad_scope e)
      | ok scope ↦ ok (new_host pin now ttl_ms allow_deletes (some scope))
    ]
  ]
]
