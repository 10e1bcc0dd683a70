-- ===== src/Executor/Session/Forward.antt =====
-- One hop of an edge (`forward`, `sealEffect` and `chargeContext` of kernel/internal/executor/session.go and
-- budget.go): the rate limit, the budget, the chain, the seal, the deadline, and the send.
use deepaxiom_aura.Base.{
  ◌+◌, String, Bool, false, ◌&&◌, Option, none, some, [], ◌==◌, string_eq, ◌+++◌, if◌then◌else◌,
  lookup, insert,
}
use deepaxiom_aura.Channel.{Envelope, protocol_major, kind_data}
use deepaxiom_aura.Ledger.Records.{
  Ledger, SealRequest, SealReply, sealed, unchecked, unsealed, broken_tree, Compensation, Outside,
}
use deepaxiom_aura.Ledger.Chain.{seal}
use deepaxiom_aura.Executor.Types.{Dest, Live, type_motor, gate_human_approval}
use deepaxiom_aura.Executor.Causal.{set, record_hop, attest_get}
use deepaxiom_aura.Executor.Speculation.{string}
use deepaxiom_aura.Executor.Budget.{inherit_deadline, charge_context, drop_expired}
use deepaxiom_aura.Executor.Policy.{
  Reason, Policy, decision_allow, decision_gate, seal_failure_refuses,
}
use deepaxiom_aura.Executor.Policy.Rate.{check_rate}
use deepaxiom_aura.Executor.Session.{
  Session, Host, Turn, delivered, rate_limited, context_exceeded, unsealable, undelivered, root_of,
  emit, append_event, or_zero, take_approval, mint, emit_error,
}

abbrev pub compensation_of : Live → Option Compensation
compensation_of live = elim live.compensates [
  | none ↦ none
  | some c ↦ some (record { capability = live.capability; port = c.port; schema = c.schema })
]

abbrev pub actor_of : Live → String
actor_of live = live.manifest_id +++ "@" +++ live.manifest_version

-- The lane of a delivery is the edge's for data, and reliable otherwise; what a send returns does not
-- depend on it here.
module _ {Approval Hash Raw Other : Type 0} (env : Outside Approval Hash Raw)
    (host : Host Approval Other) where
  -- The envelope that a hop hands on, and the session that has counted it.
  unfoldable pub next_hop :
      Turn → Session Approval Hash Raw → Envelope → Dest → Envelope × Session Approval Hash Raw
  next_hop t s src d =
      let hop = d.ref +++ "." +++ d.port in
      let number = or_zero (lookup hop s.seq) + 1 in
      let (id, s') = mint host (record s { seq = insert hop number s.seq }) in
      (
        record {
          v = protocol_major;
          id = id;
          cause_id = src.id;
          session = s.id;
          node = d.ref;
          port = d.port;
          seq = number;
          idem = src.idem +++ ":" +++ d.ref +++ ":" +++ d.port;
          schema = src.schema;
          kind = src.kind;
          payload = src.payload;
          receipt = "";
          attest = [];
          deadline = inherit_deadline t.now src.deadline d.deadline_ms;
          priority = d.priority;
          speculative = d.speculative;
        },
        s',
      )

  abbrev pub charge_hop : Session Approval Hash Raw → Envelope → Session Approval Hash Raw × Bool
  charge_hop s out = elim s.context [
    | none ↦ (s, false)
    | some c ↦ (let (c', over) = charge_context c out in (record s { context = some c' }, over))
  ]

  -- The chain of a hop, where it has a root.
  unfoldable pub trace_hop :
      Session Approval Hash Raw → Envelope → String → Dest → Session Approval Hash Raw
  trace_hop s out root d = if root == "" then s else record s {
    causal = set s.causal out.id root;
    in_flight = record_hop s.in_flight root (record { to = d; cause_id = out.cause_id });
  }

  unfoldable pub seal_request :
      Session Approval Hash Raw
      → Envelope
      → Dest
      → Live
      → String
      → Option Approval
      → SealRequest Approval
  seal_request s out d live root approver = record {
    session = s.id;
    envelope = out.id;
    cause = out.cause_id;
    actor = actor_of live;
    capability = live.capability;
    decision = if d.gate == gate_human_approval then decision_gate else decision_allow;
    outcome = "delivered";
    policy = s.policy.hash;
    payload = string (host.text_of out.payload);
    compensation = compensation_of live;
    waived = d.waived;
    compensates = s.undo_of;
    inference = (attest_get s.attests root).0;
    approver = approver;
  }

  -- An effect is data that lands in a motor skill.
  abbrev pub is_effect_hop : Live → Envelope → Bool
  is_effect_hop live out = (live.manifest_type == type_motor) && (out.kind == kind_data)

  -- The receipt is the envelope's only where `Seal` gives no error.
  unfoldable pub seal_outcome :
      Session Approval Hash Raw
      → Envelope
      → SealReply
      → Session Approval Hash Raw × Envelope × Option SealReply
  seal_outcome after out (sealed receipt) = (after, record out { receipt = receipt }, none)
  seal_outcome after out (unchecked receipt) = (after, out, some (unchecked receipt))
  seal_outcome after out (unsealed err) = (after, out, some (unsealed err))
  seal_outcome after out broken_tree = (after, out, some broken_tree)

  unfoldable pub seal_live :
      Turn
      → Session Approval Hash Raw
      → Envelope
      → Dest
      → String
      → Ledger Hash Raw
      → Live
      → Session Approval Hash Raw × Envelope × Option SealReply
  seal_live t s out d root l live =
      let (s', approver) = take_approval s out.cause_id in
      let (l', reply) = seal env l t.world (seal_request s' out d live root approver) in
      seal_outcome (record s' { ledger = some l' }) out reply

  -- The error is the reply of `Seal`, if it is not a receipt alone.
  unfoldable pub seal_effect :
      Turn
      → Session Approval Hash Raw
      → Envelope
      → Dest
      → String
      → Session Approval Hash Raw × Envelope × Option SealReply
  seal_effect t s out d root = elim s.ledger [
    | none ↦ (s, out, none)
    | some l ↦ elim d.skill [
      | none ↦ (s, out, none)
      | some live ↦
          if is_effect_hop live out then seal_live t s out d root l live else (s, out, none)
    ]
  ]

  -- The end of a hop: a delivery is logged, and sent unless its deadline has passed (`dropExpired`).
  unfoldable pub send_hop :
      Turn → Session Approval Hash Raw → Envelope → Envelope → Dest → Session Approval Hash Raw
  send_hop t s src out d =
      let logged = append_event s out.id out.cause_id out.kind in
      if drop_expired t.now out
      then logged
      else (let sent = emit logged (delivered d out) in
          if host.send_ok d out then sent else emit_error host sent src.id (undelivered d))

  -- What a failed seal costs is the policy's choice.
  unfoldable pub finish_hop :
      Turn
      → Envelope
      → Dest
      → Session Approval Hash Raw × Envelope × Option SealReply
      → Session Approval Hash Raw
  finish_hop t src d (s', out', none) = send_hop t s' src out' d
  finish_hop t src d (s', out', some reply) =
      if seal_failure_refuses s'.policy
      then emit_error host s' src.id (unsealable reply)
      else send_hop t s' src out' d

  unfoldable pub seal_hop :
      Turn → Session Approval Hash Raw → Envelope → Envelope → Dest → Session Approval Hash Raw
  seal_hop t s src out d =
      let root = root_of s src in
      finish_hop t src d (seal_effect t (trace_hop s out root d) out d root)

  unfoldable pub deliver_hop :
      Turn → Session Approval Hash Raw → Envelope → Dest → Session Approval Hash Raw
  deliver_hop t s src d =
      let (out, s') = next_hop t s src d in
      let (s'', over) = charge_hop s' out in
      if over then emit_error host s'' src.id context_exceeded else seal_hop t s'' src out d

  -- The rate limit counts data into a skill.
  unfoldable pub check_hop :
      Turn → Session Approval Hash Raw → Envelope → Dest → Policy × Option Reason
  check_hop t s src d = elim d.skill [
    | none ↦ (s.policy, none)
    | some live ↦
        if src.kind == kind_data
        then check_rate t.rate_now s.policy live.capability
        else (s.policy, none)
  ]

  unfoldable pub forward :
      Turn → Session Approval Hash Raw → Envelope → Dest → Session Approval Hash Raw
  forward t s src d =
      let (policy', refused) = check_hop t s src d in
      let checked : Session Approval Hash Raw = record s { policy = policy' } in
      elim refused [
        | some reason ↦ emit_error host checked src.id (rate_limited reason)
        | none ↦ deliver_hop t checked src d
      ]
