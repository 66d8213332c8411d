-- ===== src/Pairing/Peers.antt =====
-- src/sync/peers.ts: the table of paired machines in the vault, and the rules for pairing again.
-- `fingerprint` is identityFingerprint, `none` where it throws; the texts of errors are left out.
mod Find
pub mod Rules
pub mod Table
mod Tests
use Prim.Native.Char.{code}
use Prim.Native.String.{count}
use abracadabra.Common.{
  ℕ, zero, suc, leb, ◌==◌, String, str_eq, Bool, true, false, ◌&&◌, ◌||◌, not, if◌then◌else◌,
  Option, none, some, is_some, get_or, List, [], ◌∷◌, Result, ok, err, ◌>>=◌, ◌>>◌, require,
  or_fail,
}
use abracadabra.Common.Maps
use abracadabra.Common.Maps.{Map}
use abracadabra.Common.Json.{truthy}
use abracadabra.Core.Vault.{Vault, SyncIdentity, SyncPeer, SyncPeerRole, source, receiver}

is_alnum : ℕ → Bool
is_alnum c = (leb b'a' c && leb c b'z') || (leb b'0' c && leb c b'9')

is_name_char : ℕ → Bool
is_name_char c = is_alnum c || c == b'.' || c == b'_' || c == b'-'

all_name_chars : String → Bool
all_name_chars String.[] = true
all_name_chars (String.◌∷◌ c s) = is_name_char (code c) && all_name_chars s

-- `PEER_NAME_RE`, /^[a-z0-9][a-z0-9._-]{0,63}$/
unfoldable pub peer_name_re : String → Bool
unfolding is_alnum is_name_char all_name_chars
peer_name_re String.[] = false
peer_name_re (String.◌∷◌ c s) = is_alnum (code c) && all_name_chars s && leb (count s) 63

pub data PeerError : Type 0 where
  bad_name bad_role bad_key : PeerError
  role_mismatch own_identity impersonation role_changed keys_known name_taken not_paired : PeerError

unfoldable pub validate_peer_name : String → Result PeerError String
validate_peer_name name = if peer_name_re name then ok name else err bad_name

-- `replace(/[^a-z0-9._-]+/g, "-")`; `inside` says that the last character was replaced.
dashed : (inside : Bool) → String → String
dashed inside String.[] = String.[]
dashed inside (String.◌∷◌ c s) =
    let kept = String.◌∷◌ c (dashed false s) in
    let skipped = dashed true s in
    if is_name_char (code c) then kept else if inside then skipped else String.◌∷◌ "-" skipped

-- `replace(/^[^a-z0-9]+/, "")`
from_alnum : String → String
from_alnum String.[] = String.[]
from_alnum (String.◌∷◌ c s) =
    let rest = from_alnum s in if is_alnum (code c) then String.◌∷◌ c s else rest

abbrev take : ℕ → String → String
take n String.[] = String.[]
take zero (String.◌∷◌ c s) = String.[]
take (suc n) (String.◌∷◌ c s) = String.◌∷◌ c (take n s)

-- `replace(/[._-]+$/, "")`
abbrev is_blank : String → Bool
is_blank String.[] = true
is_blank (String.◌∷◌ c s) = false

to_alnum : String → String
to_alnum String.[] = String.[]
to_alnum (String.◌∷◌ c s) =
    let rest = to_alnum s in
    if is_blank rest && not (is_alnum (code c)) then String.[] else String.◌∷◌ c rest

-- `to_lower` is `toLowerCase`.
unfoldable pub default_peer_name : (to_lower : String → String) → String → String
unfolding dashed from_alnum to_alnum is_alnum is_name_char
default_peer_name to_lower hostname =
    let cleaned = to_alnum (take 64 (from_alnum (dashed false (to_lower hostname)))) in
    if peer_name_re cleaned then cleaned else "peer"

unfoldable pub parse_role : String → Result PeerError SyncPeerRole
parse_role value =
    if str_eq value "source"
    then ok source
    else if str_eq value "receiver"
    then ok receiver
    else err bad_role

abbrev pub opposite_role : SyncPeerRole → SyncPeerRole
opposite_role source = receiver
opposite_role receiver = source

abbrev pub role_eq : SyncPeerRole → SyncPeerRole → Bool
role_eq source source = true
role_eq receiver receiver = true
role_eq _ _ = false

pub record Roles : Type 0 where
  pub listener : SyncPeerRole
  pub connector : SyncPeerRole

unfoldable pub resolve_roles : SyncPeerRole → Option SyncPeerRole → Result PeerError Roles
resolve_roles listener none =
    ok (record { listener = listener; connector = opposite_role listener })
resolve_roles listener (some requested) =
    if role_eq requested (opposite_role listener)
    then ok (record { listener = listener; connector = opposite_role listener })
    else err role_mismatch

pub record PeerCandidate : Type 0 where
  pub id : String
  pub name : String
  pub ed25519 : String
  pub x25519 : String
  pub role : SyncPeerRole
  pub address : Option String

pub data Action : Type 0 where
  add update replace : Action

pub record PeerPlan : Type 0 where
  pub action : Action
  pub vault : Vault
  pub peer : SyncPeer
  pub replaced : Option (String × SyncPeer)

-- `Object.entries(m).find(…)`
unfoldable pub find_entry : (String → SyncPeer → Bool) → Map SyncPeer → Option (String × SyncPeer)
find_entry test [] = none
find_entry test ((k, p) ∷ m) = if test k p then some (k, p) else find_entry test m

abbrev pub peers_of : Vault → Map SyncPeer
peers_of v = get_or v.sync_peers []

-- The peer presents the identity of this vault.
unfoldable pub is_own : Option SyncIdentity → PeerCandidate → Bool
is_own none cand = false
is_own (some own) cand =
    str_eq cand.id own.id
    || str_eq cand.ed25519 own.ed25519_public
    || str_eq cand.x25519 own.x25519_public

unfoldable pub check_existing : Option SyncPeer → PeerCandidate → Result PeerError (Unit {0})
check_existing none cand = ok tt
check_existing (some existing) cand =
    if not (str_eq existing.ed25519 cand.ed25519) || not (str_eq existing.x25519 cand.x25519)
    then err impersonation
    else if not (role_eq existing.role cand.role)
    then err role_changed
    else ok tt

abbrev pub same_keys : PeerCandidate → String → SyncPeer → Bool
same_keys cand k p = not (str_eq k cand.id) && str_eq p.ed25519 cand.ed25519

abbrev pub same_name : PeerCandidate → String → String → SyncPeer → Bool
same_name cand name k p = not (str_eq k cand.id) && str_eq p.name name

abbrev pub chosen_name : Option SyncPeer → (explicit_name : Bool) → PeerCandidate → String
chosen_name none explicit_name cand = cand.name
chosen_name (some existing) explicit_name cand = if explicit_name then cand.name else existing.name

abbrev pub or_old : Option String → Option String → Option String
or_old none old = old
or_old (some a) old = some a

abbrev pub new_peer : Option SyncPeer → PeerCandidate → (name fp : String) → (now : ℕ) → SyncPeer
new_peer (some existing) cand name fp now = record existing {
  name = name;
  last_address = or_old cand.address existing.last_address;
}
new_peer none cand name fp now = record {
  name = name;
  id_fingerprint = fp;
  ed25519 = cand.ed25519;
  x25519 = cand.x25519;
  role = cand.role;
  paired_at = now;
  last_address = truthy cand.address;
}

abbrev pub action_of : Option (String × SyncPeer) → Option SyncPeer → Action
action_of (some r) existing = replace
action_of none (some p) = update
action_of none none = add

abbrev pub without : Option (String × SyncPeer) → Map SyncPeer → Map SyncPeer
without none m = m
without (some (k, p)) m = Maps.delete k m

module _ (fingerprint : String → String → Option String) where
  unfoldable pub plan_peer_upsert :
      Vault
      → PeerCandidate
      → (overwrite explicit_name : Bool) → (now : ℕ) → Result PeerError PeerPlan
  plan_peer_upsert vault cand overwrite explicit_name now = do
    require (not (is_own vault.sync_identity cand)) own_identity
    fp ← or_fail (fingerprint cand.ed25519 cand.x25519) bad_key
    let existing = Maps.get cand.id (peers_of vault)
    check_existing existing cand
    require (not (is_some (find_entry (same_keys cand) (peers_of vault)))) keys_known
    name ← validate_peer_name (chosen_name existing explicit_name cand)
    let clash = find_entry (same_name cand name) (peers_of vault)
    require (not (is_some clash) || overwrite) name_taken
    let peer = new_peer existing cand name fp now
    ok (record {
      action = action_of clash existing;
      vault = record vault {
        sync_peers = some (Maps.set cand.id peer (without clash (peers_of vault)));
      };
      peer = peer;
      replaced = clash;
    })

unfoldable pub find_peer : Vault → String → Option (String × SyncPeer)
find_peer vault name_or_id = elim (Maps.get name_or_id (peers_of vault)) [
  | some p ↦ some (name_or_id, p)
  | none ↦ find_entry (λ k p. str_eq p.name name_or_id) (peers_of vault)
]

unfoldable pub remove_peer : Vault → String → Result PeerError (Vault × (String × SyncPeer))
remove_peer vault name_or_id = elim (find_peer vault name_or_id) [
  | none ↦ err not_paired
  | some (id, p) ↦
      ok (record vault { sync_peers = some (Maps.delete id (peers_of vault)) }, (id, p))
]
