-- ===== src/Executor/Session/Bounded/OneHop.antt =====
-- One hop keeps every index of a session within its bound (`forward` of
-- kernel/internal/executor/session.go).
use deepaxiom_aura.Base.{String, inl, inr, Bool-cases, Option-cases, ◌==◌, string_eq, lookup}
use deepaxiom_aura.Channel.{Envelope}
use deepaxiom_aura.Channel.Dedup
use deepaxiom_aura.Ledger.Records.{Outside, SealReply, sealed, unchecked, unsealed, broken_tree}
use deepaxiom_aura.Executor.Types.{Dest}
use deepaxiom_aura.Executor.Causal.Bounds.{
  Causal-Inv, set-Inv, InFlight-Inv, record_hop-Inv, Cancelled-Inv,
}
use deepaxiom_aura.Executor.Causal.Attest.{Attest-Inv}
use deepaxiom_aura.Executor.Speculation.Laws.{Spec-Inv}
use deepaxiom_aura.Executor.Budget.{drop_expired}
use deepaxiom_aura.Executor.Policy.{seal_failure_refuses}
use deepaxiom_aura.Executor.Session.{
  Session, Host, Turn, Refusal, emit_error, take_approval, root_of,
}
use deepaxiom_aura.Executor.Session.Forward.{
  next_hop, charge_hop, trace_hop, is_effect_hop, seal_outcome, seal_live, seal_effect, send_hop,
  finish_hop, seal_hop, deliver_hop, check_hop, forward,
}

-- Each index of the session is within its bound, and its order lists exactly its keys.
abbrev pub IsBounded : {Approval Hash Raw : Type 0} → Session Approval Hash Raw → Type 0
IsBounded s =
    Causal-Inv s.causal
    × InFlight-Inv s.in_flight
    × Cancelled-Inv s.cancelled
    × Attest-Inv s.attests
    × Spec-Inv s.spec
    × Dedup.Inv s.dedup

module _ {Approval Hash Raw Other : Type 0} (env : Outside Approval Hash Raw)
    (host : Host Approval Other) where
  pub emit_error-IsBounded :
      (s : Session Approval Hash Raw) (cause : String) (r : Refusal)
      → IsBounded s
      → IsBounded (emit_error host s cause r)
  unfolding emit_error
  emit_error-IsBounded s cause r v = v

  trace_hop-IsBounded :
      (s : Session Approval Hash Raw) (out : Envelope) (root : String) (d : Dest)
      → IsBounded s
      → IsBounded (trace_hop env host s out root d)
  unfolding trace_hop
  trace_hop-IsBounded s out root d v = elim (Bool-cases (root == "")) [
    | inl bare ↦ rw bare v
    | inr chained ↦ rw chained (
      set-Inv s.causal out.id root v.0,
      record_hop-Inv s.in_flight root _ v.1,
      v.2,
      v.3,
      v.4,
      v.5,
    )
  ]

  take_approval-IsBounded :
      (s : Session Approval Hash Raw) (id : String) → IsBounded s → IsBounded (take_approval s id).0
  unfolding take_approval
  take_approval-IsBounded s id v = elim (Bool-cases (id == "")) [
    | inl e ↦ rw e v
    | inr e ↦ elim (Option-cases (lookup id s.approved)) [
      | inl gone ↦ rw (e, gone) v
      | inr (a, there) ↦ rw (e, there) v
    ]
  ]

  seal_outcome-IsBounded :
      (s : Session Approval Hash Raw) (out : Envelope) (reply : SealReply)
      → IsBounded s
      → IsBounded (seal_outcome env host s out reply).0
  unfolding seal_outcome
  seal_outcome-IsBounded s out (sealed receipt) v = v
  seal_outcome-IsBounded s out (unchecked receipt) v = v
  seal_outcome-IsBounded s out (unsealed err) v = v
  seal_outcome-IsBounded s out broken_tree v = v

  seal_effect-IsBounded :
      (t : Turn) (s : Session Approval Hash Raw) (out : Envelope) (d : Dest) (root : String)
      → IsBounded s
      → IsBounded (seal_effect env host t s out d root).0
  unfolding seal_effect seal_live
  seal_effect-IsBounded t s out d root v = elim (Option-cases s.ledger) [
    | inl bare ↦ rw (seal_effect, bare) v
    | inr (l, has_ledger) ↦ elim (Option-cases d.skill) [
      | inl client ↦ rw (seal_effect, has_ledger, client) v
      | inr (live, skilled) ↦ elim (Bool-cases (is_effect_hop env host live out)) [
        | inr plain ↦ rw (seal_effect, has_ledger, skilled, plain) v
        | inl effect ↦
            rw (seal_effect, has_ledger, skilled, effect, seal_live)
              (seal_outcome-IsBounded _ out _ (take_approval-IsBounded s out.cause_id v))
      ]
    ]
  ]

  send_hop-IsBounded :
      (t : Turn) (s : Session Approval Hash Raw) (src out : Envelope) (d : Dest)
      → IsBounded s
      → IsBounded (send_hop env host t s src out d)
  unfolding send_hop emit_error
  send_hop-IsBounded t s src out d v = elim (Bool-cases (drop_expired t.now out)) [
    | inl late ↦ rw late v
    | inr timely ↦ elim (Bool-cases (host.send_ok d out)) [
      | inl ok ↦ rw (timely, ok) v
      | inr bad ↦ rw (timely, bad) v
    ]
  ]

  seal_hop-IsBounded :
      (t : Turn) (s : Session Approval Hash Raw) (src out : Envelope) (d : Dest)
      → IsBounded s
      → IsBounded (seal_hop env host t s src out d)
  unfolding seal_hop finish_hop
  seal_hop-IsBounded t s src out d v =
      let root = root_of s src in
      let (s', out', failed) =
        seal_effect env host t (trace_hop env host s out root d) out d root in
      let v' : IsBounded s' =
        seal_effect-IsBounded t (trace_hop env host s out root d) out d root
          (trace_hop-IsBounded s out root d v) in
      elim (Option-cases failed) [
        | inl fine ↦ rw (seal_hop, finish_hop, fine) (send_hop-IsBounded t s' src out' d v')
        | inr (reply, bad) ↦ elim (Bool-cases (seal_failure_refuses s'.policy)) [
          | inl stop ↦ rw (seal_hop, finish_hop, bad, stop) (emit_error-IsBounded s' src.id _ v')
          | inr go ↦ rw (seal_hop, finish_hop, bad, go) (send_hop-IsBounded t s' src out' d v')
        ]
      ]

  charge_hop-IsBounded :
      (s : Session Approval Hash Raw) (out : Envelope)
      → IsBounded s
      → IsBounded (charge_hop env host s out).0
  charge_hop-IsBounded s out v = elim (Option-cases s.context) [
    | inl free ↦ rw free v
    | inr (c, bound) ↦ rw bound v
  ]

  deliver_hop-IsBounded :
      (t : Turn) (s : Session Approval Hash Raw) (src : Envelope) (d : Dest)
      → IsBounded s
      → IsBounded (deliver_hop env host t s src d)
  unfolding deliver_hop next_hop
  deliver_hop-IsBounded t s src d v =
      let (out, s') = next_hop env host t s src d in
      let (s'', over) = charge_hop env host s' out in
      let v' : IsBounded s'' = charge_hop-IsBounded s' out v in
      elim (Bool-cases over) [
        | inl blown ↦ rw (deliver_hop, blown) (emit_error-IsBounded s'' src.id _ v')
        | inr fits ↦ rw (deliver_hop, fits) (seal_hop-IsBounded t s'' src out d v')
      ]

  pub forward-IsBounded :
      (t : Turn) (s : Session Approval Hash Raw) (src : Envelope) (d : Dest)
      → IsBounded s
      → IsBounded (forward env host t s src d)
  unfolding forward
  forward-IsBounded t s src d v =
      let (policy', refused) = check_hop env host t s src d in
      elim (Option-cases refused) [
        | inl allowed ↦
            rw (forward, allowed) (deliver_hop-IsBounded t (record s { policy = policy' }) src d v)
        | inr (reason, limited) ↦
            rw (forward, limited) (emit_error-IsBounded (record s { policy = policy' }) src.id _ v)
      ]
