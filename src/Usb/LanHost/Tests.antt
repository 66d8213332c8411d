-- ===== src/Usb/LanHost/Tests.antt =====
-- Tests of src/usb/lan-host.ts.
use abracadabra.Common.{
  ℕ, ◌≤◌, String, Bool, true, false, ◌≡◌, ◌⊎◌, refl, Option, none, some, List, [], ◌∷◌, Result, ok,
  err,
}
use abracadabra.Common.Maps.{Map, has}
use abracadabra.Core.Vault.{Vault, Project, empty_vault, keep_device_local, without_device_local}
use abracadabra.Core.Scope.{
  assert_scope_names_allowed, clean_names, is_reserved, validate_scope, unknown,
}
use abracadabra.Usb.LanHost.{
  Bundles, Payload, ActiveHost, LanRequest, would_delete, reply, ask_approval, extract_pin,
  right_pin, handle, route, push, push_bundle, gate, apply_push, new_host, start_lan_host,
  bad_scope,
}
use abracadabra.Usb.LanHost.Access.{handle-right_pin, touches}
use abracadabra.Usb.LanHost.Gate.{handle-Passes}
use abracadabra.Usb.LanHost.Locking.{request, stopped, wrong_pins, wrong_pins_bound}

-- Bundles that are not sealed.
abbrev bundles : Bundles Payload
bundles = record {
  seal_full = λ v pin. record { vault = some v; device_id = none };
  seal_scoped = λ ps names pin. record {
    vault = some (record empty_vault { projects = ps });
    device_id = none;
  };
  open_bundle = λ b pin. some b;
}

abbrev nfkc : String → String
nfkc s = s

abbrev host : ActiveHost
host = new_host "123456" 0 600000 false none

abbrev shop : Map Project
shop = ("shop", record { created_at = 1; vars = [] }) ∷ []

abbrev pushed : Payload
pushed = record { vault = some (record empty_vault { projects = shop }); device_id = some "laptop" }

abbrev push_request : LanRequest Payload
push_request = record {
  method = "POST";
  path = "/lan/push";
  authorization = some "Bearer 123456";
  body = some (record { projects = none; bundle = some pushed });
}

abbrev guess : LanRequest Payload
guess = record push_request { authorization = some "Bearer 000000" }

abbrev incoming : Vault
incoming = record empty_vault { projects = shop }

handle_push_test :
    (handle bundles nfkc 5 empty_vault push_request host).1 ≡ ask_approval incoming (some "laptop")
unfolding handle route push push_bundle gate right_pin extract_pin keep_device_local
    without_device_local abracadabra.Common.Maps.get abracadabra.Common.Texts.trim
handle_push_test = refl

delete_test :
    (handle bundles nfkc 5
      (record empty_vault { projects = ("bank", record { created_at = 1; vars = [] }) ∷ [] })
      push_request
      host).1
    ≡ reply (would_delete ("bank" ∷ []))
unfolding handle route push push_bundle gate right_pin extract_pin keep_device_local
    without_device_local abracadabra.Common.Maps.get abracadabra.Common.Texts.trim
delete_test = refl

-- A project that the host gets while it waits for the approval of a push is deleted, though the host
-- takes no deletions.
late_project_test :
    (apply_push {B = Payload} true incoming (some "laptop") 9 (
      host,
      record {
        vault = record empty_vault {
          projects = ("bank", record { created_at = 8; vars = [] }) ∷ [];
        };
        bases = none;
      },
    )).0.1.vault.projects
    ≡ shop
unfolding apply_push
late_project_test = refl

reserved_scope_test :
    start_lan_host empty_vault (some ("__abra_treasury__" ∷ [])) true "123456" 0 600000 false
    ≡ err (bad_scope (abracadabra.Core.Scope.refused "__abra_treasury__"))
unfolding start_lan_host assert_scope_names_allowed clean_names is_reserved
    abracadabra.Common.Texts.trim
reserved_scope_test = refl

handle-right_pin_example :
    (host.active ≡ true)
    × (5 ≤ host.expires_at)
    × (host.locked ≡ false)
    × (right_pin bundles nfkc host push_request ≡ true)
handle-right_pin_example = handle-right_pin bundles nfkc 5 empty_vault push_request host touched
  where
    touched : touches (handle bundles nfkc 5 empty_vault push_request host).1 ≡ true
    touched = rw handle_push_test refl

handle-Passes_example :
    (host.scope ≡ none)
    × ((host.allow_deletes ≡ true)
        ⊎ ((n : String) → has n empty_vault.projects ≡ true → has n incoming.projects ≡ true))
    × (incoming.sync_identity ≡ empty_vault.sync_identity)
    × (incoming.sync_peers ≡ empty_vault.sync_peers)
handle-Passes_example =
    handle-Passes bundles nfkc 5 empty_vault push_request host incoming (some "laptop")
      handle_push_test

wrong_pins_bound_example :
    wrong_pins bundles nfkc
      (request 5 empty_vault guess ∷ request 6 empty_vault push_request ∷ stopped ∷ [])
      host
    ≤ 8
wrong_pins_bound_example =
    wrong_pins_bound bundles nfkc
      (request 5 empty_vault guess ∷ request 6 empty_vault push_request ∷ stopped ∷ []) host refl
      refl
