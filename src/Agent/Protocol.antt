-- ===== src/Agent/Protocol.antt =====
-- src/agent/protocol.ts: the operations, and the test that a message must pass before it is
-- handled.
mod Tests
use abracadabra.Common.{
  String, str_eq, Bool, true, false, ◌&&◌, ◌||◌, not, if◌then◌else◌, Option, none, some, is_some,
}
use abracadabra.Common.Numbers.{Number, nat, strict_eq}
use abracadabra.Common.Json.{
  Json, null, bool, num, str, arr, obj, Members, field, as_string, as_number, as_object, is_true,
  truthy,
}
use abracadabra.Agent.Grants.{GrantCaller}

-- The fields that `checkVaultBinding` reads; one that is no text counts as missing.
pub record AgentVaultBinding : Type 0 where
  pub vault_path : Option String
  pub keystore_backend : Option String

pub data AgentOp : Type 0 where
  status unlock lock grant_list : AgentOp
  unlock_key : String → AgentVaultBinding → AgentOp
  vault_load : AgentVaultBinding → AgentOp
  vault_save : Json → AgentVaultBinding → AgentOp
  grant_add : String → GrantCaller → Number → AgentOp
  grant_revoke : Option String → Bool → AgentOp
  grant_check : String → GrantCaller → AgentOp

pub record AgentRequest : Type 0 where
  pub id : String
  pub op : AgentOp

-- `SENSITIVE_OPS.has(op)`
abbrev pub sensitive : AgentOp → Bool
sensitive status = false
sensitive lock = false
sensitive _ = true

is_grant_caller : Option Json → Bool
is_grant_caller (some (obj c)) =
    is_some (truthy (as_string (field "exe" c)))
    && is_some (as_number (field "dev" c))
    && is_some (as_number (field "ino" c))
is_grant_caller _ = false

abbrev is_version : Option Json → Bool
is_version (some (num n)) = strict_eq n (nat 1)
is_version _ = false

-- The `switch` of `isAgentRequest`.
unfoldable pub op_allowed : String → Members → Bool
unfolding is_grant_caller
op_allowed op r =
    if str_eq op "status"
      || str_eq op "unlock"
      || str_eq op "lock"
      || str_eq op "vault.load"
      || str_eq op "grant.list"
    then true
    else if str_eq op "unlock.key"
    then is_some (as_string (field "key" r))
    else if str_eq op "vault.save"
    then is_some (as_object (field "vault" r))
    else if str_eq op "grant.add"
    then is_some (as_string (field "project" r))
      && is_grant_caller (field "caller" r)
      && is_some (as_number (field "ttlSeconds" r))
    else if str_eq op "grant.revoke"
    then is_true (field "all" r) || is_some (as_string (field "grantId" r))
    else if str_eq op "grant.check"
    then is_some (as_string (field "project" r)) && is_grant_caller (field "caller" r)
    else false

abbrev op_text_allowed : Option String → Members → Bool
op_text_allowed none r = false
op_text_allowed (some op) r = op_allowed op r

unfoldable pub is_agent_request : Json → Bool
is_agent_request (obj r) =
    if not (is_version (field "v" r))
    then false
    else if not (is_some (truthy (as_string (field "id" r))))
    then false
    else op_text_allowed (as_string (field "op" r)) r
is_agent_request _ = false
