-- ===== src/Usb/Together.antt =====
-- src/usb/lan-client.ts against src/usb/lan-host.ts: a client whose requests go to a host, and the
-- sealed bundles of src/core/backup.ts between them.
use mathlib.Core.Path.{subst}
use Prim.Native.String.{◌++◌ as join}
use abracadabra.Common.{
  ℕ, ◌==◌, ==_iff, String, true, not, ◌≡◌, sym, ap, ◌∙◌, Option, none, some, List, map, Result, ok,
  err, inl, inr, Bool-cases, >>=-eq-ok, require, require-eq-ok, or_fail,
}
use abracadabra.Common.Maps
use abracadabra.Common.Maps.{Map, contains}
use abracadabra.Common.Texts.{trim}
use abracadabra.Core.Vault.{Vault, Project}
use abracadabra.Core.Envelope.{Opens, EnvelopeError}
use abracadabra.Core.Backup.{
  Bytes, Sealing, KdfOptions, scoped, scoped_payload, seal_bundle, seal_scoped_bundle, open_bundle,
  open_any_bundle,
}
use abracadabra.Core.Backup.Seals.{open_any_bundle-seal_scoped_bundle}
use abracadabra.Core.Backup.Export.{VaultEnvelope, encrypt_vault_for_export, decrypt_envelope}
use abracadabra.Core.Scope.Names.{chosen}
use abracadabra.Usb.LanHost.{
  Bundles, Payload, ActiveHost, LanRequest, Answer, reply, ask_approval, served, would_delete,
  refused, info, applied, requested, handle,
}
use abracadabra.Usb.LanHost.Sharing.{IsShare, Shares, handle-Shares}
use abracadabra.Usb.LanClient.{
  Suite, Bundle, Network, Response, no_answer, answered, LanError, require_fingerprint, pull_bundle,
  bundle_of, invalid_pin, pull_failed, no_bundle,
}
use abracadabra.Usb.LanClient.Payload.{
  Pulled, check_requested, check_payload, check_opened, pull_projects, allowed, extras,
  check_extras,
}

abbrev no_options : KdfOptions
no_options = record { n = none; r = none; p = none; key_len = none }

-- What openBundle and decryptEnvelope make of the vault of a bundle.
abbrev vault_of : Result EnvelopeError Vault → Option Vault
vault_of (ok v) = some v
vault_of (err e) = none

module _ (suite : Suite) where
  open suite use {vaults, bundles, scrypt, nfkc}

  abbrev pub decrypted : Option Vault → Option String → Payload
  decrypted vault device_id = record { vault = vault; device_id = device_id }

  -- The bundles that a host seals and opens, with its master key.
  abbrev pub host_bundles : (key : Bytes) → Sealing → Bundles (Bundle suite)
  host_bundles key m = record {
    seal_full = λ v pin.
        seal_bundle bundles scrypt nfkc (encrypt_vault_for_export vaults v key m.iv) key pin
          no_options none none m;
    seal_scoped = λ ps names pin. seal_scoped_bundle bundles scrypt nfkc ps names pin no_options m;
    open_bundle = λ b pin. elim (open_bundle bundles scrypt nfkc b pin) [
      | err e ↦ none
      | ok payload ↦ some (elim payload.vault_enc [
        | none ↦ decrypted none payload.meta.device_id
        | some env ↦ elim payload.master_key [
          | none ↦ decrypted none payload.meta.device_id
          | some k ↦ decrypted (vault_of (decrypt_envelope vaults env k)) payload.meta.device_id
        ]
      ])
    ];
  }

-- What the client sees of an answer; one that waits for an approval has not been sent.
unfoldable pub response_of : {B : Type 0} → Answer B → Response B
response_of (reply (served b)) = answered 200 (some b)
response_of (reply (would_delete ns)) = answered 409 none
response_of (reply (refused status)) = answered status none
response_of (reply info) = answered 200 none
response_of (reply applied) = answered 200 none
response_of (ask_approval v d) = no_answer

unfoldable pub pull_request : {B : Type 0} → (pin : String) → Option (List String) → LanRequest B
pull_request pin projects = record {
  method = "POST";
  path = "/lan/pull";
  authorization = some (join "Bearer " pin);
  body = some (record { projects = projects; bundle = none });
}

response_of-bundle :
    {B : Type 0} (a : Answer B) (b : B)
    → response_of a ≡ answered 200 (some b)
    → a ≡ reply (served b)
unfolding response_of
response_of-bundle (reply (served c)) b h = cc h
response_of-bundle (reply (would_delete ns)) b h = absurd (cc)
response_of-bundle (reply (refused status)) b h = absurd (cc)
response_of-bundle (reply info) b h = absurd (cc)
response_of-bundle (reply applied) b h = absurd (cc)
response_of-bundle (ask_approval v d) b h = absurd (cc)

or_fail-ok : {B : Type 0} (o : Option B) (e : LanError) {b : B} → or_fail o e ≡ ok b → o ≡ some b
or_fail-ok none e h = absurd (cc)
or_fail-ok (some b) e h = cc h

bundle_of-ok :
    {B : Type 0} (r : Response B) {b : B} → bundle_of r ≡ ok b → r ≡ answered 200 (some b)
unfolding bundle_of
bundle_of-ok no_answer h = absurd (cc)
bundle_of-ok {B} (answered status bundle) {b} h =
    let a = >>=-eq-ok (require (not (status == 401)) invalid_pin) _ h in
    let c = >>=-eq-ok (require (status == 200) (pull_failed status)) _ a.2 in
    let ok_status =
      (==_iff status 200).0 (require-eq-ok (status == 200) (pull_failed status) c.1) in
    cc (ok_status, or_fail-ok bundle no_bundle c.2)

check_payload-projects :
    (names : Option (List String)) (scope : List String) (projects : Map Project) {pulled : Pulled}
    → check_payload names scope projects ≡ ok pulled
    → pulled.projects ≡ projects
unfolding check_payload
check_payload-projects names scope projects {pulled} h =
    let a = >>=-eq-ok (allowed scope) _ h in
    let b = >>=-eq-ok (allowed (Maps.keys projects)) _ a.2 in
    let c = >>=-eq-ok (check_extras (extras names scope projects)) _ b.2 in
    let found : Pulled = record { requested_names = names; projects = projects } in
    let same : found ≡ pulled = cc (c.2) in ap (λ (p : Pulled). p.projects) (sym same)

check_opened-projects :
    (E : Type 0) (names : Option (List String)) (ps : Map Project) (ns : List String) (m : Sealing)
    {pulled : Pulled}
    → check_opened {E = E} names (ok (scoped (scoped_payload ps ns m))) ≡ ok pulled
    → pulled.projects ≡ ps
check_opened-projects E none ps ns m h = check_payload-projects none ns ps h
check_opened-projects E (some names) ps ns m h = check_payload-projects (some names) ns ps h

module _ (suite : Suite) (key : Bytes) (m : Sealing) (now : ℕ) (vault : Vault)
    (host : ActiveHost) where
  open suite use {bundles, scrypt, nfkc}

  -- The requests reach this host, with this vault, at this time.
  abbrev pub answer : (pin : String) → Option (List String) → Answer (Bundle suite)
  answer pin names =
      (handle (host_bundles suite key m) nfkc now vault (pull_request pin names) host).1

  abbrev pub IsHost : Network (Bundle suite) → Type 0
  IsHost net =
      (fp pin : String) (names : Option (List String))
      → net.pull fp pin names ≡ response_of (answer pin names)

  pull_bundle-IsShare :
      (net : Network (Bundle suite)) (scope : List String) (fp pin : String)
      (names : Option (List String)) {b : Bundle suite}
      → IsHost net
      → host.scope ≡ some scope
      → pull_bundle net fp pin names ≡ ok b
      → IsShare (host_bundles suite key m) nfkc vault scope host.pin b
  unfolding pull_bundle
  pull_bundle-IsShare net scope fp pin names {b} is s h =
      let served_b =
        response_of-bundle (answer pin (requested names)) b (
          sym (is fp pin (requested names)) ∙ bundle_of-ok (net.pull fp pin (requested names)) h) in
      subst (Shares (host_bundles suite key m) nfkc vault scope host.pin) served_b (
        handle-Shares (host_bundles suite key m) nfkc now vault scope
          (pull_request pin (requested names)) host s)

  -- What a client gets by a scoped pull from a host that shares a scope: every project that
  -- `scopedLanSync` takes is one of the scope, by its trimmed name, and is the one that the host has
  -- under that name. The client uses the PIN of the host, and the cipher opens what it sealed.
  pub pull_projects-shared :
      (net : Network (Bundle suite)) (scope : List String) (fp : Option String)
      (names : Option (List String)) (pulled : Pulled)
      → IsHost net
      → host.scope ≡ some scope
      → Opens bundles
      → pull_projects suite net host.pin fp names ≡ ok pulled
      → (k : String) (p : Project) → Maps.get k pulled.projects ≡ some p
      → (contains k (map trim scope) ≡ true) × (Maps.get k vault.projects ≡ some p)
  unfolding pull_projects
  pull_projects-shared net scope fp names pulled is s o h k p g =
      let a = >>=-eq-ok (require_fingerprint fp) _ h in
      let b = >>=-eq-ok (check_requested (requested names)) _ a.2 in
      let c = >>=-eq-ok (pull_bundle net a.0 host.pin b.0) _ b.2 in
      let share = pull_bundle-IsShare net scope a.0 host.pin b.0 is s c.1 in
      let opened =
        ap (λ (x : Bundle suite). open_any_bundle bundles scrypt nfkc x host.pin) share.is
        ∙ (open_any_bundle-seal_scoped_bundle bundles scrypt nfkc share.projects share.names
            host.pin no_options m o).0 in
      let same =
        check_opened-projects (VaultEnvelope suite.vaults.Blob) b.0 share.projects share.names m
          (sym (ap (check_opened b.0) opened) ∙ c.2) in
      let found : chosen vault.projects share.names k ≡ some p =
        sym (share.has k) ∙ ap (Maps.get k) (sym same) ∙ g in
      elim (Bool-cases (contains k share.names)) [
        | inl e ↦ (share.within k e, rw e at found)
        | inr e ↦ absurd (cc (rw e at found))
      ]
