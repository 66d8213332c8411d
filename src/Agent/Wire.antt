-- ===== src/Agent/Wire.antt =====
-- src/agent/server.ts: what a request is checked for before a handler touches the agent, and the
-- replies. What the code takes from outside is a parameter: the sealing of the vault,
-- `path.resolve` and base64 (`Host`), and the clock, the random bytes and the paths of the status
-- reply (`Turn`). The texts of errors and the log lines are left out.
use abracadabra.Common.{
  ℕ, ◌%◌, ◌==◌, leb, String, str_eq, Bool, true, false, ◌&&◌, ◌||◌, not, if◌then◌else◌, Option,
  none, some, List, length, get_or,
}
use Prim.Native.Char.{code}
use Prim.Native.String.{count}
use abracadabra.Common.Json.{Json, null, arr, obj, Members, end, member, field}
use abracadabra.Common.Texts.{trim}
use abracadabra.Core.Envelope.{Sealer, VaultFile}
use abracadabra.Agent.Buffers.{Bytes}
use abracadabra.Agent.Grants.{Grant, GrantListItem, GrantCheckResult}
use abracadabra.Agent.State.{AgentState, AgentStatusBody}
use abracadabra.Agent.Protocol.{AgentVaultBinding}

pub record Host : Type 1 where
  pub sealer : Sealer Json
  -- `path.resolve`
  pub resolve : String → String
  -- `Buffer.from(s, "base64")` and its inverse
  pub from_base64 : String → Bytes
  pub to_base64 : Bytes → String

pub data AgentErrorCode : Type 0 where
  locked unavailable mismatch forbidden_peer bad_request internal : AgentErrorCode

pub data AgentReply : Type 0 where
  status_reply : AgentStatusBody → String → String → AgentReply
  unlocked unlocked_by_key locked_now vault_empty vault_saved : AgentReply
  vault_loaded : Json → AgentReply
  grant_added : Grant → AgentReply
  grants_listed : List GrantListItem → AgentReply
  grants_revoked : ℕ → AgentReply
  grant_checked : GrantCheckResult → AgentReply
  -- the code, and the reason of a refused peer
  failed : AgentErrorCode → Option String → AgentReply

pub record AgentResponse : Type 0 where
  pub id : String
  pub body : AgentReply

-- What a handler comes to: a reply, or a wait for `resolveMasterKey`.
pub data Outcome : Type 0 where
  reply : AgentResponse → Outcome
  waits : String → Outcome

-- The agent and the file at its vault path; the path and the backend stay as they are.
pub record Server (B : Type 0) : Type 0 where
  pub agent : AgentState
  pub disk : Option (VaultFile B)
  pub vault_path : String
  pub keystore_backend : String

pub record Turn : Type 0 where
  pub now : ℕ
  pub iv : ℕ
  pub grant_id : String
  pub node_path : String
  pub entry_path : String

abbrev pub fail : AgentErrorCode → AgentReply
fail code = failed code none

is_base64 : ℕ → Bool
is_base64 c =
    (leb b'A' c && leb c b'Z')
    || (leb b'a' c && leb c b'z')
    || (leb b'0' c && leb c b'9')
    || c == b'+'
    || c == b'/'

-- The rest of `/^[A-Za-z0-9+/]+={0,2}$/` after its first character.
base64_rest : String → Bool
base64_rest String.[] = true
base64_rest (String.◌∷◌ c s) =
    let rest = base64_rest s in
    if is_base64 (code c) then rest else str_eq (String.◌∷◌ c s) "=" || str_eq (String.◌∷◌ c s) "=="

base64_shape : String → Bool
base64_shape String.[] = false
base64_shape (String.◌∷◌ c s) = is_base64 (code c) && base64_rest s

-- `vault[k] ??= {}`, where `vault` is an object.
put_member : String → Json → Members → Members
put_member k v end = member k v end
put_member k v (member j w ms) =
    if str_eq j k then member j v ms else member j w (put_member k v ms)

abbrev missing : Option Json → Bool
missing none = true
missing (some null) = true
missing _ = false

default_member : String → Members → Members
default_member k ms = if missing (field k ms) then put_member k (obj end) ms else ms

-- The two defaults of `vault.load`; `null` and the primitive values throw, and what is written to
-- an array is not sent.
unfoldable pub with_defaults : Json → Option Json
unfolding default_member put_member
with_defaults (obj ms) = some (obj (default_member "apiKeys" (default_member "connections" ms)))
with_defaults (arr xs) = some (arr xs)
with_defaults _ = none

module _ (host : Host) where
  open host use {sealer, resolve, from_base64, to_base64}

  -- `decodeMasterKeyB64`
  unfoldable pub decode_master_key : String → Option Bytes
  unfolding base64_shape base64_rest is_base64
  decode_master_key raw =
      let buf = from_base64 raw in
      if str_eq raw "" || not (base64_shape raw) || not (count raw % 4 == 0)
      then none
      else if not (length buf == 32)
      then none
      else if not (str_eq (to_base64 buf) raw)
      then none
      else some buf

  abbrev client_path : Option String → String
  client_path none = ""
  client_path (some p) = if str_eq (trim p) "" then "" else resolve p

  unfoldable pub check_vault_binding :
      AgentVaultBinding → (vault_path : String) (keystore : String) → Option AgentReply
  check_vault_binding b vault_path keystore =
      let path = client_path b.vault_path in
      let client_ks = get_or b.keystore_backend "" in
      if str_eq path "" || not (str_eq path (resolve vault_path))
      then some (fail mismatch)
      else if str_eq client_ks "" || not (str_eq client_ks keystore)
      then some (fail mismatch)
      else none
