-- ===== src/Agent/Protocol/Tests.antt =====
-- Messages that src/agent/protocol.ts accepts and refuses.
use abracadabra.Common.{◌≡◌, refl, true, false}
use abracadabra.Common.Numbers.{nat}
use abracadabra.Common.Json.{Json, null, num, str, bool, obj, Members, end, member, field}
use abracadabra.Agent.Protocol.{is_agent_request, op_allowed}

abbrev message : Members → Json
message ms = obj (member "v" (num (nat 1)) (member "id" (str "q1") ms))

request_tests :
    (is_agent_request (message (member "op" (str "lock") end)) ≡ true)
    × (is_agent_request (message (member "op" (str "unlock.key") end)) ≡ false)
    × (is_agent_request (message (member "op" (str "vault.save") (member "vault" null end))) ≡ true)
    × (is_agent_request (message (member "op" (str "grant.revoke") (member "all" (bool true) end)))
        ≡ true)
    × (is_agent_request null ≡ false)
unfolding is_agent_request op_allowed field
request_tests = (refl, refl, refl, refl, refl)
