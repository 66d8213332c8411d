-- ===== src/Pairing/Hello.antt =====
-- src/sync/pair.ts: the hello and the other messages of a pairing, as they are sent and read. A
-- message is an object of JSON, and the texts of errors are left out.
use Prim.Native.Char.{code}
use abracadabra.Common.{
  ℕ, ◌+◌, leb, ltb, String, str_eq, Bool, true, false, not, ◌≡◌, refl, if◌then◌else◌, Option, none,
  some, is_some, Result, ok, err, ◌>>=◌, ◌>>◌, require, or_fail, ◌||◌, Bool-cases, inl, inr,
}
use abracadabra.Common.Json.{Json, null, bool, str, obj, Members, end, member, field, as_string}
use abracadabra.Core.Vault.{SyncIdentity, SyncPeerRole, source, receiver}
use abracadabra.Pairing.Channel.{Msg}
use abracadabra.Pairing.Identity.{Crypto, is_uuid, valid_public_keys, decode_raw_key}
use abracadabra.Pairing.Peers.{default_peer_name}
use abracadabra.Pairing.Sas.{PairHello, pair_protocol, role_text}

pub data HelloError : Type 0 where
  missing wrong_protocol bad_id bad_peer_name bad_keys bad_nonce bad_role no_role : HelloError

-- `s.length`, in units of UTF-16.
unfoldable pub utf16_length : String → ℕ
utf16_length String.[] = 0
utf16_length (String.◌∷◌ c s) = (if ltb (code c) 0x10000 then 1 else 2) + utf16_length s

-- `h.role ?? null`
unfoldable pub parse_hello_role : Option Json → Result HelloError (Option SyncPeerRole)
parse_hello_role none = ok none
parse_hello_role (some null) = ok none
parse_hello_role (some (str s)) =
    if str_eq s "source"
    then ok (some source)
    else if str_eq s "receiver"
    then ok (some receiver)
    else err bad_role
parse_hello_role _ = err bad_role

-- The members of an object; an array has none of these names.
abbrev pub object_members : Option Json → Result HelloError Members
object_members (some (obj ms)) = ok ms
object_members (some (Json.arr xs)) = ok end
object_members _ = err missing

module _ (crypto : Crypto) where
  unfoldable pub parse_hello : Option Json → (role_required : Bool) → Result HelloError PairHello
  parse_hello raw role_required = do
    h ← object_members raw
    protocol ← or_fail (as_string (field "protocol" h)) wrong_protocol
    require (str_eq protocol pair_protocol) wrong_protocol
    id ← or_fail (as_string (field "id" h)) bad_id
    require (is_uuid id) bad_id
    name ← or_fail (as_string (field "name" h)) bad_peer_name
    require (leb (utf16_length name) 256) bad_peer_name
    ed25519 ← or_fail (as_string (field "ed25519" h)) bad_keys
    x25519 ← or_fail (as_string (field "x25519" h)) bad_keys
    require (valid_public_keys crypto ed25519 x25519) bad_keys
    nonce ← or_fail (as_string (field "nonce" h)) bad_nonce
    require (is_some (decode_raw_key crypto nonce)) bad_nonce
    role ← parse_hello_role (field "role" h)
    require (not role_required || is_some role) no_role
    ok (record {
      id = id;
      name = name;
      ed25519 = ed25519;
      x25519 = x25519;
      nonce = nonce;
      role = role;
    })

-- `nonce` is the base64 of 32 random bytes.
unfoldable pub own_hello :
    (to_lower : String → String)
    → SyncIdentity
    → (hostname nonce : String) → Option SyncPeerRole
    → PairHello
own_hello to_lower identity hostname nonce role = record {
  id = identity.id;
  name = default_peer_name to_lower hostname;
  ed25519 = identity.ed25519_public;
  x25519 = identity.x25519_public;
  nonce = nonce;
  role = role;
}

abbrev pub role_json : Option SyncPeerRole → Json
role_json none = null
role_json (some r) = str (role_text r)

unfoldable pub hello_json : PairHello → Json
hello_json h = obj (
    member "protocol" (str pair_protocol) (
      member "id" (str h.id) (
        member "name" (str h.name) (
          member "ed25519" (str h.ed25519) (
            member "x25519" (str h.x25519)
              (member "nonce" (str h.nonce) (member "role" (role_json h.role) end)))))))

-- `{ t, … }`
abbrev pub msg : String → Members → Msg
msg t rest = record { t = t; members = member "t" (str t) rest }

abbrev pub error_msg : Msg
error_msg = msg "error" end

abbrev pub connector_hello : (pin : String) → PairHello → Msg
connector_hello pin h = msg "hello" (member "pin" (str pin) (member "hello" (hello_json h) end))

abbrev pub listener_hello : PairHello → (sig : String) → Msg
listener_hello h sig = msg "hello" (member "hello" (hello_json h) (member "sig" (str sig) end))

abbrev pub sig_msg : String → Msg
sig_msg sig = msg "sig" (member "sig" (str sig) end)

abbrev pub confirm_msg : Bool → Msg
confirm_msg b = msg "confirm" (member "ok" (bool b) end)

abbrev pub saved_msg : Bool → Msg
saved_msg b = msg "saved" (member "ok" (bool b) end)

-- `m.ok === true`
unfoldable pub says_ok : Msg → Bool
says_ok m = elim (field "ok" m.members) [ some (bool b) ↦ b | _ ↦ false ]

-- A hello that parse_hello takes.
pub record IsHello (crypto : Crypto) (h : PairHello) : Type 0 where
  pub id_ok : is_uuid h.id ≡ true
  pub name_ok : leb (utf16_length h.name) 256 ≡ true
  pub keys_ok : valid_public_keys crypto h.ed25519 h.x25519 ≡ true
  pub nonce_ok : is_some (decode_raw_key crypto h.nonce) ≡ true

role_json_lem : (r : Option SyncPeerRole) → parse_hello_role (some (role_json r)) ≡ ok r
unfolding parse_hello_role
role_json_lem none = refl
role_json_lem (some source) = refl
role_json_lem (some receiver) = refl

-- parseHello reads back the hello that is sent, for an id, a name, keys and a nonce that are well
-- formed, and refuses it only where a role is required and it states none.
pub parse_hello-hello_json :
    (crypto : Crypto) (h : PairHello) (required : Bool)
    → IsHello crypto h
    → parse_hello crypto (some (hello_json h)) required
      ≡ (if not required || is_some h.role then ok h else err no_role)
unfolding parse_hello hello_json field
parse_hello-hello_json crypto h required v =
    rw (v.id_ok, v.name_ok, v.keys_ok, v.nonce_ok, role_json_lem h.role)
      (elim (Bool-cases (not required || is_some h.role)) [ inl e ↦ rw e refl | inr e ↦ rw e refl ])
