-- ===== src/Executor/Session.antt =====
-- A live session (kernel/internal/executor/session.go): its state, and what a call emits. Each call is one
-- turn with its clock and what the store answers; sessions here have no pins. The bytes of a payload
-- are the host's to read, and the warnings of the log are left out.
pub mod Forward
pub mod Gate
pub mod Route
mod Emits
pub mod Gated
pub mod Sealed
pub mod Answers
pub mod Late
pub mod Bounded
pub mod Cancelled
mod Tests
use deepaxiom_aura.Base.{
  ℕ, ◌+◌, String, Bool, true, false, Option, none, some, List, [], ◌∷◌, ◌++◌, ◌==◌, string_eq,
  if◌then◌else◌, Dict, lookup, erase,
}
use deepaxiom_aura.Base.Int.{ℤ}
use deepaxiom_aura.Channel.{Bytes, Envelope}
use deepaxiom_aura.Channel.Dedup.{Dedup}
use deepaxiom_aura.Ledger.Records.{Ledger, SealReply, World, Outside}
use deepaxiom_aura.Executor.Types.{Dest, client_ref}
use deepaxiom_aura.Executor.Causal.{CausalIndex, InFlightIndex, AttestIndex, CancelledSet, get}
use deepaxiom_aura.Executor.Speculation.{RawMessage, Encoding, SpecIndex}
use deepaxiom_aura.Executor.Budget.{ContextLedger}
use deepaxiom_aura.Executor.Policy.{Policy, Reason}

abbrev pub kind_confirm_response : String
kind_confirm_response = "confirm_response"

-- Why a gate's answer authorizes nothing.
pub data GateError : Type 0 where
  signature_required : List String → GateError
  no_roster : GateError
  not_checked : GateError
  unbound : List String → GateError
  disagrees : GateError

-- What an error to the client says.
pub data Refusal : Type 0 where
  rate_limited : Reason → Refusal
  context_exceeded : Refusal
  unsealable : SealReply → Refusal
  undelivered : Dest → Refusal
  answer_refused : Dest → GateError → Refusal
  answer_denied : Dest → String → Refusal

-- What a session hands to a skill or to the client: an envelope on an edge, the question of a gate with
-- its id, what it holds and the labels it names, the cancel of what a skill knows by a cause, and an error.
pub data Output : Type 0 where
  delivered : Dest → Envelope → Output
  asked : String → Dest → Envelope → List String → Output
  cancelling : Dest → String → Output
  told : String → Refusal → Output

-- An envelope in the event log.
pub record Event : Type 0 where
  pub id : String
  pub cause_id : String
  pub kind : String

pub record PendingGate : Type 0 where
  pub env : Envelope
  pub to : Dest

pub record Session (Approval Hash Raw : Type 0) : Type 0 where
  pub id : String
  pub node_id : String
  pub routes : Dict String (List Dest)
  pub seq : Dict String ℕ
  pub dedup : Dedup
  pub policy : Policy
  pub ledger : Option (Ledger Hash Raw)
  pub undo_of : String
  pub pending : Dict String PendingGate
  pub has_roster : Bool
  pub approved : Dict String Approval
  pub causal : CausalIndex
  pub in_flight : InFlightIndex
  pub cancelled : CancelledSet
  pub attests : AttestIndex
  pub spec : SpecIndex
  pub context : Option ContextLedger
  pub minted : ℕ
  pub events : List Event
  pub outputs : List Output

-- What a gate's answer holds: the boolean, and the signed approval beside it.
pub record Answer (Approval : Type 0) : Type 0 where
  pub approve : Bool
  pub approval : Option Approval

-- What the session calls and does not define: fresh ids, whether a send succeeds, JSON, the check of an
-- approval against the roster and its fields, and attestations (their hash, and whether they are stored).
pub record Host (Approval Other : Type 0) : Type 0 where
  pub new_id : ℕ → String
  pub send_ok : Dest → Envelope → Bool
  pub text_of : Bytes → RawMessage
  pub bytes_of : RawMessage → Bytes
  pub json : Encoding Other
  pub answer_of : Bytes → Answer Approval
  pub roster_ok : Approval → String → String → String → Bool
  pub operator : Approval → String
  pub decision : Approval → String
  pub shows : Approval → String → Bool
  pub attestation_hash : Bytes → Option String
  pub attestation_stored : String → Bool

-- The clock of a call, in the units of its readers, and the ledger's store during it.
pub record Turn : Type 0 where
  pub rate_now : ℕ
  pub now : ℤ
  pub world : World

-- Go's `s.seq[k]` reads 0 where the key is missing.
abbrev pub or_zero : Option ℕ → ℕ
or_zero none = 0
or_zero (some n) = n

module _ {Approval Hash Raw : Type 0} where
  unfoldable pub root_of : Session Approval Hash Raw → Envelope → String
  root_of s env =
      if env.node == client_ref
      then env.id
      else elim (get s.causal env.cause_id) [ none ↦ "" | some root ↦ root ]

  abbrev pub emit : Session Approval Hash Raw → Output → Session Approval Hash Raw
  emit s out = record s { outputs = s.outputs ++ out ∷ [] }

  abbrev pub append_event :
      Session Approval Hash Raw → String → String → String → Session Approval Hash Raw
  append_event s id cause kind = record s {
    events = s.events ++ record { id = id; cause_id = cause; kind = kind } ∷ [];
  }

  unfoldable pub take_approval :
      Session Approval Hash Raw → String → Session Approval Hash Raw × Option Approval
  take_approval s held_id = if held_id == "" then (s, none) else elim (lookup held_id s.approved) [
    | none ↦ (s, none)
    | some a ↦ (record s { approved = erase held_id s.approved }, some a)
  ]

module _ {Approval Hash Raw Other : Type 0} (host : Host Approval Other) where
  -- `channel.NewID`.
  abbrev pub mint : Session Approval Hash Raw → String × Session Approval Hash Raw
  mint s = (host.new_id s.minted, record s { minted = s.minted + 1 })

  unfoldable pub emit_error :
      Session Approval Hash Raw → String → Refusal → Session Approval Hash Raw
  emit_error s cause refusal =
      let (id, s') = mint s in emit (append_event s' id cause "error") (told cause refusal)
