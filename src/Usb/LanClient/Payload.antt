-- ===== src/Usb/LanClient/Payload.antt =====
-- src/usb/lan-client.ts: the projects that `scopedLanSync` takes from a host, and what it refuses.
use abracadabra.Common.{
  String, Option, none, some, get_or, List, [], ◌∷◌, ◌++◌, Result, ok, err, ◌>>=◌, ◌>>◌,
}
use abracadabra.Common.Maps
use abracadabra.Common.Maps.{Map}
use abracadabra.Core.Vault.{Project}
use abracadabra.Core.Backup.{Opened, full, scoped, BackupError, open_any_bundle}
use abracadabra.Core.Scope.{assert_scope_names_allowed}
use abracadabra.Core.Sync.{key_set}
use abracadabra.Usb.LanHost.{requested, outside}
use abracadabra.Usb.LanClient.{
  Suite, Bundle, Network, LanError, wrong_pin, bad_scope, refused_payload, no_scoped_sync,
  full_host, unrequested, require_fingerprint, pull_bundle,
}

-- The projects that the host sent, and the names that were asked for.
pub record Pulled : Type 0 where
  pub requested_names : Option (List String)
  pub projects : Map Project

-- `opts.projects` once it is checked.
unfoldable pub check_requested : Option (List String) → Result LanError (Option (List String))
check_requested none = ok none
check_requested (some names) = elim (assert_scope_names_allowed names) [
  | err e ↦ err (bad_scope e)
  | ok cleaned ↦ ok (some cleaned)
]

abbrev pub allowed : List String → Result LanError (List String)
allowed names = elim (assert_scope_names_allowed names) [
  | err e ↦ err (refused_payload e)
  | ok cleaned ↦ ok cleaned
]

-- The names of the payload that were not asked for, each once.
unfoldable pub extras : Option (List String) → (scope : List String) → Map Project → List String
extras none scope projects = []
extras (some names) scope projects =
    key_set [] (outside scope names ++ outside (Maps.keys projects) names)

abbrev pub check_extras : List String → Result LanError (Unit {0})
check_extras [] = ok tt
check_extras (n ∷ ns) = err (unrequested (n ∷ ns))

-- A `scope` or `projects` that is missing is refused like one without names.
unfoldable pub check_payload :
    Option (List String) → (scope : List String) → Map Project → Result LanError Pulled
check_payload names scope projects = do
  scope_names ← allowed scope
  project_names ← allowed (Maps.keys projects)
  check_extras (extras names scope projects)
  ok (record { requested_names = names; projects = projects })

abbrev pub check_opened :
    {E : Type 0} → Option (List String) → Result BackupError (Opened E) → Result LanError Pulled
check_opened names (err e) = err wrong_pin
check_opened (some names) (ok (full payload)) = err no_scoped_sync
check_opened none (ok (full payload)) = err full_host
check_opened names (ok (scoped payload)) =
    check_payload names (get_or payload.scope []) (get_or payload.projects [])

module _ (suite : Suite) (net : Network (Bundle suite)) (pin : String) where
  open suite use {bundles, scrypt, nfkc}

  unfoldable pub pull_projects :
      (fingerprint : Option String) → Option (List String) → Result LanError Pulled
  pull_projects fingerprint projects = do
    fp ← require_fingerprint fingerprint
    names ← check_requested (requested projects)
    bundle ← pull_bundle net fp pin names
    check_opened names (open_any_bundle bundles scrypt nfkc bundle pin)
