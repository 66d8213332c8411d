-- ===== src/Lib.antt =====
-- A vault for environment variables and passwords (src/*.ts): the background agent that holds the
-- unlocked master key, the merges, the pairing and the sync between machines, and the counters, keys
-- and sessions that guard it.
--
-- Parts, and the files that model them:
--   Common           what the parts share: Boolean tests, JavaScript's maps in order of insertion
--                    (Maps), numbers (Numbers), JSON values (Json), `trim` (Texts)
--   Core/Envelope    src/core/vault.ts: encryptVault, decryptVault
--   Agent/Buffers    Node's buffers, for the key material of src/agent/state.ts
--   Agent/Grants     src/agent/grants.ts: GrantStore; Invariant, Check and Timer prove
--   Agent/State      src/agent/state.ts: AgentState; Invariant, Expiry and Race prove
--   Agent/Protocol   src/agent/protocol.ts: isAgentRequest
--   Agent/Wire       src/agent/server.ts: the replies, checkVaultBinding, decodeMasterKeyB64
--   Agent/Server     src/agent/server.ts: handleRequest; Access, Sound, TakeKey, Reach and Replies
--                    prove
--   Core/Vault       src/core/vault.ts: the records of a vault, withoutDeviceLocal, keepDeviceLocal
--   Core/Sync        src/core/sync.ts: mergeVarMaps; Vars proves, Projects is mergeProjects,
--                    Connections mergeConnections, Whole threeWayMerge, Report its report, Bases
--                    the state by peer
--   Core/Backup      src/core/backup.ts: the sealed bundles; Export is the envelope of a vault in one,
--                    Seals proves
--   Core/Scope       src/core/sync-scope.ts: the sync of some projects; Names and Merge prove
--   Agent/Paths      src/agent/paths.ts: the settings of the agent, ensureAgentRuntimeDir
--   Agent/SleepWatch src/agent/sleep-watch.ts: the watch for the sleep of the machine; Runs proves
--   Platform         src/platform/unlock-attempts.ts (UnlockAttempts), session.ts (Session, of which
--                    Wiped proves) and reveal-gate.ts (RevealGate), which asks the grants of the
--                    agent
--   Api              src/api/grants.ts with src/mcp/grants.ts (Grants), src/api/session.ts (Session,
--                    and Cookies, which reads the token)
--   Core/CallerIdentity  src/core/caller-identity.ts: identityForPid
--   Pairing          src/sync: the pairing of two machines. Identity (identity.ts) and Encoding its
--                    lengthPrefixed; Peers (peers.ts), Rules and Table prove; Sas (sas.ts) over
--                    Wordlist, Binding proves; Channel is LineChannel of pair.ts, Order and Chunks
--                    prove; Hello its messages; Proc and Session both sides after the socket is
--                    there, run alone by Run and against each other by Exchange; Safety, Sides,
--                    Ending, Success and Meeting prove; Listener is pairListen, Guesses proves;
--                    Example is test data
--   Usb/LanHost      src/usb/lan-host.ts: the requests of a host that shares its vault; Access, Gate,
--                    Locking and Sharing prove
--   Usb/LanClient    src/usb/lan-client.ts: the sync with a host; Acts is applyLanSync, Payload and
--                    Scoped are scopedLanSync; Safety, Agreement, Outcome, Unreported, Untouched and
--                    OneWay prove
--   Usb/Together     src/usb/lan-client.ts against src/usb/lan-host.ts
--   Core/ApiKeys     src/core/apikeys.ts: the keys of the API
--
-- The server's state is the agent's, with the file at the vault path. A request passes
-- isAgentRequest, then the check of its peer, then one case of handleRequest, which calls the
-- methods of AgentState and GrantStore; `onLock` is the callback that startAgent passes, so a lock
-- clears the grants. Methods take the time that they read from the clock; within one method the
-- clock is read once. A timer is the time at which it is due, and Reach lets it fire at any time
-- from then on. `unlock` is two steps, before and after its await, and other steps may come between.
-- The key buffers that the keystore allocates for it are kept apart from the agent's own.
--
-- Parameters: AES-256-GCM with JSON (Sealer), path.resolve and base64 (Host), the outcome of the
-- peer check, random ids. The laws that are assumed of them: unsealing with the sealing key gives
-- back what was sealed; where two machines meet, a signature verifies with the key of who made
-- it; for what a transcript binds, distinct texts have distinct UTF-8. Also parameters: what
-- lstat, stat and readlink answer, what `Number` makes of a text, what the dependencies of the
-- reveal gate answer. What the pairing takes from node:crypto is a Crypto (hashes, keys,
-- signatures), a host of a LAN sync takes its bundles as a Bundles, which Usb/Together fills with
-- those of src/core/backup.ts, and scrypt, JSON.parse, the lower case, NFKC and the hash of an API
-- key are functions. A client of a LAN sync takes its requests as a Network, and what its machine
-- answers as a Local. A recursion here follows a list, a text or what a session does next, and none
-- takes fuel; `exchange` takes the number of its rounds, three, since a side waits for at most three
-- messages.
--
-- A side of a pairing is a tree of what it does next: send, close, wait for a message, ask the user,
-- read and write the vault. A sync of a client logs what it does, in order, and ends with a result;
-- Together lets its requests reach a host. A channel's waits and timers, and what a watched child
-- writes and its end, are explicit events, in any order.
--
-- Not modelled: pairConnect before its session, what a pairing shows but for the safety code, the
-- address and the search of a host of the LAN sync, sockets and framing, the file system but for the
-- vault file's content, the texts of messages and log lines: they are input and output. The HTTP
-- and MCP servers, a body of a LAN request that comes after its head, the terminal commands and the
-- cartridge are not modelled either. Numbers are whole, or not finite; object keys keep the order of
-- insertion also where they look like integers, and a name that an object inherits is not found.
pub mod Common
pub mod Core
pub mod Agent
pub mod Platform
pub mod Api
pub mod Pairing
pub mod Usb
