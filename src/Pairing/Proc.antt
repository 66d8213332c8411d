-- ===== src/Pairing/Proc.antt =====
-- src/sync/pair.ts: what a side of a pairing is made of. A side is a `Proc`: what it does next, and
-- how it goes on with what it gets.
use abracadabra.Common.{ℕ, String, Bool, Option, Result}
use abracadabra.Agent.Buffers.{Bytes}
use abracadabra.Core.Vault.{Vault, SyncIdentity, SyncPeer, SyncPeerRole}
use abracadabra.Pairing.Channel.{Msg, ChannelError}
use abracadabra.Pairing.Hello.{HelloError, error_msg}
use abracadabra.Pairing.Identity.{Crypto}
use abracadabra.Pairing.Peers.{PeerError, PeerCandidate, Action}
use abracadabra.Pairing.Sas.{SafetyCode}

pub record PairTimeouts : Type 0 where
  pub step_ms : ℕ
  pub confirm_ms : ℕ
  pub saved_ack_ms : ℕ
  pub close_ms : ℕ

abbrev pub default_pair_timeouts : PairTimeouts
default_pair_timeouts = record {
  step_ms = 30000;
  confirm_ms = 300000;
  saved_ack_ms = 15000;
  close_ms = 5000;
}

-- Why a pairing failed.
pub data Abort : Type 0 where
  could_not_confirm declined_here no_confirmation peer_aborted peer_declined not_saved : Abort
  no_reply refused unexpected bad_signature table_conflict : Abort
  invalid_hello : HelloError → Abort
  role_conflict : PeerError → Abort

pub data SaveProblem : Type 0 where
  peer_failed peer_error unexpected_ack no_ack : SaveProblem

pub record PairResult : Type 0 where
  pub peer_id : String
  pub peer : SyncPeer
  pub action : Action
  pub replaced : Option (String × SyncPeer)
  pub code : SafetyCode
  pub my_role : SyncPeerRole
  pub peer_saved : Bool
  pub peer_save_error : Option SaveProblem

pub data Proc : Type 0 where
  send : Msg → Proc → Proc
  close : Proc → Proc
  -- LineChannel.close awaited: until the peer has closed, and so many milliseconds at most
  await_close : ℕ → Proc → Proc
  -- the next message, within so many milliseconds
  recv : ℕ → (Result ChannelError Msg → Proc) → Proc
  -- the local yes or no, `none` where there is no terminal
  ask : SafetyCode → (Option Bool → Proc) → Proc
  -- the vault, `none` where it cannot be read
  load : (Option Vault → Proc) → Proc
  save : Vault → (Bool → Proc) → Proc
  done : PairResult → Proc
  abort : Abort → Proc

abbrev pub abort_with : Abort → Proc
abort_with e = send error_msg (close (abort e))

pub record PairSession : Type 0 where
  pub transcript : Bytes
  pub identity : SyncIdentity
  pub identity_created : Bool
  pub candidate : PeerCandidate
  pub my_role : SyncPeerRole
  pub overwrite : Bool
  pub explicit_name : Bool

-- What a machine takes with it into a session. `now` is the clock.
pub record Machine : Type 0 where
  pub crypto : Crypto
  pub to_lower : String → String
  pub hostname : String
  pub nonce : String
  pub now : ℕ
  pub vault : Vault
  pub identity : SyncIdentity
  pub created : Bool
  pub peer_name : Option String
  pub overwrite : Bool
  pub timeouts : PairTimeouts
