-- ===== src/Core/Sync/Bases.antt =====
-- The bases of the last syncs, one for each peer: loadSyncState and saveSyncState. The state is what
-- the file holds: `none` for a file that is missing, of an older format, or does not open with the
-- master key, which readPeersMap all reads as empty. The encryption of the file is left out.
use Prim.Native.String.{◌++◌ as join}
use abracadabra.Common.{
  ℕ, String, str_eq, false, ◌≡◌, if◌then◌else◌, Option, none, some, get_or, [],
}
use abracadabra.Common.Maps
use abracadabra.Common.Maps.{Map, get-set}
use abracadabra.Core.Vault.{Vault, without_device_local}

pub record SyncState : Type 0 where
  pub last_sync_at : ℕ
  pub base : Vault

abbrev pub SyncFile : Type 0
SyncFile = Option (Map SyncState)

abbrev pub read_peers_map : SyncFile → Map SyncState
read_peers_map file = get_or file []

-- A peer id that is missing or empty is falsy.
unfoldable pub load_sync_state : SyncFile → Option String → Option SyncState
load_sync_state file none = none
load_sync_state file (some peer_id) =
    if str_eq peer_id "" then none else Maps.get peer_id (read_peers_map file)

unfoldable pub save_sync_state : SyncFile → Option String → Vault → (now : ℕ) → SyncFile
save_sync_state file none vault now = file
save_sync_state file (some peer_id) vault now =
    if str_eq peer_id ""
    then file
    else some (
        Maps.set peer_id (record { last_sync_at = now; base = without_device_local vault })
          (read_peers_map file))

abbrev prefixed : String → Option String → Option String
prefixed prefix none = none
prefixed prefix (some id) = if str_eq id "" then none else some (join prefix id)

unfoldable pub usb_peer_id : Option String → Option String
unfolding prefixed
usb_peer_id lineage_id = prefixed "usb:" lineage_id

unfoldable pub lan_peer_id : Option String → Option String
unfolding prefixed
lan_peer_id device_id = prefixed "lan:" device_id

-- What is saved for a peer is what is loaded for it, without the device-local fields, and the bases
-- of other peers are loaded as before.
pub load_sync_state-save_sync_state :
    (file : SyncFile) (p q : String) (vault : Vault) (now : ℕ)
    → str_eq p "" ≡ false
    → str_eq q "" ≡ false
    → load_sync_state (save_sync_state file (some p) vault now) (some q) ≡ (
        if str_eq p q
        then some (record { last_sync_at = now; base = without_device_local vault })
        else load_sync_state file (some q))
unfolding load_sync_state save_sync_state
load_sync_state-save_sync_state file p q vault now hp hq =
    rw (hp, hq) (get-set p q _ (read_peers_map file))
