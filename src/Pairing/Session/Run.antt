-- ===== src/Pairing/Session/Run.antt =====
-- src/sync/pair.ts: a side of a pairing against its user, its vault and the messages of the peer.
use abracadabra.Common.{ℕ, ◌+◌, Bool, Option, List, [], ◌∷◌, Result, ok, err}
use abracadabra.Core.Vault.{Vault}
use abracadabra.Pairing.Channel.{Msg, ChannelError, timed_out}
use abracadabra.Pairing.Sas.{SafetyCode}
use abracadabra.Pairing.Session.{
  Proc, send, close, await_close, recv, ask, load, save, done, abort, Abort, PairResult,
}

-- What the user answers, the vault as it is read back, and whether it can be written.
pub record World : Type 0 where
  pub answer : Option Bool
  pub vault : Option Vault
  pub can_save : Bool

pub data Did : Type 0 where
  sent : Msg → Did
  closed : Did
  got : Result ChannelError Msg → Did
  asked : SafetyCode → Option Bool → Did
  loaded : Did
  saved : Vault → Bool → Did

abbrev pub Inbox : Type 0
Inbox = List (Result ChannelError Msg)

-- What comes in next; after the last message the wait times out.
abbrev pub first_in : Inbox → Result ChannelError Msg
first_in [] = err timed_out
first_in (i ∷ is) = i

abbrev pub rest_in : Inbox → Inbox
rest_in [] = []
rest_in (i ∷ is) = is

module _ (w : World) where
  abbrev pub acts : Proc → Inbox → List Did
  acts (send m p) is = sent m ∷ acts p is
  acts (close p) is = closed ∷ acts p is
  acts (await_close ms p) is = closed ∷ acts p is
  acts (recv ms k) is = got (first_in is) ∷ acts (k (first_in is)) (rest_in is)
  acts (ask code k) is = asked code w.answer ∷ acts (k w.answer) is
  acts (load k) is = loaded ∷ acts (k w.vault) is
  acts (save v k) is = saved v w.can_save ∷ acts (k w.can_save) is
  acts (done r) is = []
  acts (abort e) is = []

  abbrev pub result : Proc → Inbox → Result Abort PairResult
  result (send m p) is = result p is
  result (close p) is = result p is
  result (await_close ms p) is = result p is
  result (recv ms k) is = result (k (first_in is)) (rest_in is)
  result (ask code k) is = result (k w.answer) is
  result (load k) is = result (k w.vault) is
  result (save v k) is = result (k w.can_save) is
  result (done r) is = ok r
  result (abort e) is = err e

  -- The longest that the side may wait for these messages.
  abbrev pub waiting : Proc → Inbox → ℕ
  waiting (send m p) is = waiting p is
  waiting (close p) is = waiting p is
  waiting (await_close ms p) is = ms + waiting p is
  waiting (recv ms k) is = ms + waiting (k (first_in is)) (rest_in is)
  waiting (ask code k) is = waiting (k w.answer) is
  waiting (load k) is = waiting (k w.vault) is
  waiting (save v k) is = waiting (k w.can_save) is
  waiting (done r) is = 0
  waiting (abort e) is = 0

-- The vaults that are written, or would have been.
abbrev pub saves : List Did → List Vault
saves [] = []
saves (saved v b ∷ ds) = v ∷ saves ds
saves (sent m ∷ ds) = saves ds
saves (closed ∷ ds) = saves ds
saves (got r ∷ ds) = saves ds
saves (asked c a ∷ ds) = saves ds
saves (loaded ∷ ds) = saves ds
