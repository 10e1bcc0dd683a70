-- ===== src/Executor/Session/Gate.antt =====
-- The human-approval gate (`holdForApproval`, `resolveGate`, `authorizeGate` and `sealDenial` of
-- kernel/internal/executor/session.go).
use deepaxiom_aura.Base.{
  String, Bool, false, not, Option, none, some, ◌⊎◌, inl, inr, List, [], ◌∷◌, ◌==◌, string_eq,
  bool_eq, if◌then◌else◌, lookup, insert, erase, length, leb,
}
use deepaxiom_aura.Channel.{Envelope}
use deepaxiom_aura.Ledger.Records.{SealRequest, Outside}
use deepaxiom_aura.Ledger.Chain.{seal}
use deepaxiom_aura.Executor.Types.{Dest, Live}
use deepaxiom_aura.Executor.Causal.{attest_get}
use deepaxiom_aura.Executor.Speculation.{string}
use deepaxiom_aura.Executor.Policy.{decision_gate, signed_approval_required}
use deepaxiom_aura.Executor.Session.{
  Session, Host, Turn, GateError, signature_required, no_roster, not_checked, unbound, disagrees,
  PendingGate, asked, answer_refused, answer_denied, root_of, emit, append_event, mint, emit_error,
}
use deepaxiom_aura.Executor.Session.Forward.{actor_of, compensation_of, forward}

abbrev pub approval_approve : String
approval_approve = "approve"

-- What a gate's answer authorizes: whether to deliver, and the approval that says so.
pub record Verdict (Approval : Type 0) : Type 0 where
  pub approve : Bool
  pub approval : Option Approval

-- `Unbound`: the labels that an approval does not show.
unfoldable pub unbound_labels :
    {Approval : Type 0} → (Approval → String → Bool) → Approval → List String → List String
unbound_labels shows a [] = []
unbound_labels shows a (label ∷ labels) =
    let rest = unbound_labels shows a labels in if shows a label then rest else label ∷ rest

module _ {Approval Hash Raw Other : Type 0} (env : Outside Approval Hash Raw)
    (host : Host Approval Other) where
  unfoldable pub hold_for_approval :
      Session Approval Hash Raw → Envelope → Dest → Session Approval Hash Raw
  hold_for_approval s held d =
      let (id, s') = mint host s in
      let waiting : Session Approval Hash Raw = record s' {
        pending = insert id (record { env = held; to = d }) s'.pending;
      } in
      emit (append_event waiting id held.id "confirm_request")
        (asked id d held s.policy.require_approval_context)

  -- A signed answer: the roster, the labels that it must show, and that it says what the boolean says.
  unfoldable pub authorize_signed :
      Session Approval Hash Raw → PendingGate → Bool → Approval → GateError ⊎ Verdict Approval
  authorize_signed s held approve a =
      let missing = unbound_labels host.shows a s.policy.require_approval_context in
      let signed = host.decision a == approval_approve in
      if not s.has_roster
      then inl no_roster
      else if not (host.roster_ok a s.node_id s.id held.env.id)
      then inl not_checked
      else if leb 1 (length missing)
      then inl (unbound missing)
      else if signed == approve
      then inr (record { approve = signed; approval = some a })
      else inl disagrees

  unfoldable pub authorize_gate :
      Session Approval Hash Raw
      → PendingGate
      → Bool
      → Option Approval
      → GateError ⊎ Verdict Approval
  authorize_gate s held approve none =
      if signed_approval_required s.policy
      then inl (signature_required s.policy.require_approval_context)
      else inr (record { approve = approve; approval = none })
  authorize_gate s held approve (some a) = authorize_signed s held approve a

  unfoldable pub denial_request :
      Session Approval Hash Raw → PendingGate → Live → Option Approval → SealRequest Approval
  denial_request s held live approval = record {
    session = s.id;
    envelope = held.env.id;
    cause = held.env.cause_id;
    actor = actor_of live;
    capability = live.capability;
    decision = decision_gate;
    outcome = "denied";
    policy = s.policy.hash;
    payload = string (host.text_of held.env.payload);
    compensation = compensation_of live;
    waived = false;
    compensates = s.undo_of;
    inference = (attest_get s.attests (root_of s held.env)).0;
    approver = approval;
  }

  unfoldable pub seal_denial :
      Turn → Session Approval Hash Raw → PendingGate → Option Approval → Session Approval Hash Raw
  seal_denial t s held approval = elim s.ledger [
    | none ↦ s
    | some l ↦ elim held.to.skill [
      | none ↦ s
      | some live ↦ record s {
        ledger = some (seal env l t.world (denial_request s held live approval)).0;
      }
    ]
  ]

  abbrev pub keep_approval :
      Session Approval Hash Raw → String → Option Approval → Session Approval Hash Raw
  keep_approval s held_id none = s
  keep_approval s held_id (some a) = record s { approved = insert held_id a s.approved }

  abbrev pub who_denied : Option Approval → String
  who_denied none = "user"
  who_denied (some a) = host.operator a

  -- An answer to a gate that is waiting, which it no longer is.
  unfoldable pub answer_gate :
      Turn → Session Approval Hash Raw → Envelope → PendingGate → Session Approval Hash Raw
  answer_gate t s resp held =
      let answer = host.answer_of resp.payload in
      elim (authorize_gate s held answer.approve answer.approval) [
        | inl err ↦ emit_error host (seal_denial t s held none) resp.id (answer_refused held.to err)
        | inr verdict ↦
            if verdict.approve
            then forward env host t (keep_approval s held.env.id verdict.approval) held.env held.to
            else emit_error host (seal_denial t s held verdict.approval) resp.id
                (answer_denied held.to (who_denied verdict.approval))
      ]

  unfoldable pub resolve_gate :
      Turn → Session Approval Hash Raw → Envelope → Session Approval Hash Raw
  resolve_gate t s resp = elim (lookup resp.cause_id s.pending) [
    | none ↦ s
    | some held ↦
        answer_gate t
          (append_event (record s { pending = erase resp.cause_id s.pending }) resp.id resp.cause_id
            resp.kind)
          resp held
  ]
