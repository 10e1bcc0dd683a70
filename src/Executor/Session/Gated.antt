-- ===== src/Executor/Session/Gated.antt =====
-- No envelope passes a gate without an answer (`Route` of kernel/internal/executor/session.go).
use deepaxiom_aura.Base.{
  String, Bool, true, not, ◌||◌, Option, none, some, ◌⊎◌, inl, inr, List, [], ◌∷◌, ◌≡◌, ◌≢◌, refl,
  sym, ◌∙◌, subst, Bool-cases, Option-cases, Sum-cases, if◌then◌else◌, ◌==◌, string_eq, lookup,
  Dict, str_ne, nat_beq, length, str_eq_iff,
}
use deepaxiom_aura.Channel.{Envelope, kind_data, kind_cancel}
use deepaxiom_aura.Channel.Dedup.{seen}
use deepaxiom_aura.Ledger.Records.{Outside}
use deepaxiom_aura.Executor.Types.{Dest, gate_human_approval}
use deepaxiom_aura.Executor.Session.Forward.{forward}
use deepaxiom_aura.Executor.Causal.{Hop, has, take}
use deepaxiom_aura.Executor.Speculation.{SpecKey, is_final, resolve}
use deepaxiom_aura.Executor.Session.{
  Session, Host, Turn, Event, PendingGate, cancelling, root_of, kind_confirm_response, append_event,
}
use deepaxiom_aura.Executor.Session.Gate.{
  Verdict, authorize_signed, hold_for_approval, authorize_gate, answer_gate, resolve_gate,
  seal_denial, keep_approval,
}
use deepaxiom_aura.Executor.Session.Route.{
  record_attestation, abandon_speculation, abandon_all, reconcile, forward_speculatively, travel,
  travel_all, ask_all, handle_cancel, cancel_root, route_onward, route,
}
use deepaxiom_aura.Executor.Session.Emits.{
  Adds, Adds-nothing, Adds-one, Adds-trans, emit_error-Adds, forward-Adds,
}

module _ {Approval Hash Raw Other : Type 0} (env : Outside Approval Hash Raw)
    (host : Host Approval Other) where
  -- A delivery of a call is on an edge that is speculative or not gated, or the call answers the gate
  -- that holds a delivery on that edge, and the answer authorizes it.
  abbrev pub IsFree : Session Approval Hash Raw → Envelope → Dest → Envelope → Type 0
  IsFree s e d out =
      (d.speculative ≡ true)
      ⊎ (d.gate ≢ gate_human_approval)
      ⊎ ((held : PendingGate) × (verdict : Verdict Approval) × (e.kind ≡ kind_confirm_response)
          × (lookup e.cause_id s.pending ≡ some held)
          × (held.to ≡ d)
          × (authorize_gate env host s held (host.answer_of e.payload).approve
                (host.answer_of e.payload).approval
              ≡ inr verdict)
          × (verdict.approve ≡ true))

  module _ (P : Dest → Envelope → Type 0) where
    abandon_speculation-Adds :
        (s : Session Approval Hash Raw) (id : String) (d : Dest)
        → Adds P s.outputs (abandon_speculation env host s id d).outputs
    unfolding abandon_speculation
    abandon_speculation-Adds s id d = elim (Option-cases d.skill) [
      | inl client ↦ rw (abandon_speculation, client) (Adds-nothing P s.outputs)
      | inr (live, skilled) ↦
          rw (abandon_speculation, skilled) (Adds-one P s.outputs (cancelling d id) tt)
    ]

    abandon_all-Adds :
        (s : Session Approval Hash Raw) (ids : List String) (d : Dest)
        → Adds P s.outputs (abandon_all env host s ids d).outputs
    unfolding abandon_all
    abandon_all-Adds s [] d = Adds-nothing P s.outputs
    abandon_all-Adds s (id ∷ ids) d =
        Adds-trans P _ _ _ (abandon_speculation-Adds s id d)
          (abandon_all-Adds (abandon_speculation env host s id d) ids d)

    ask_all-Adds :
        (hs : List Hop) (s : Session Approval Hash Raw)
        → Adds P s.outputs (ask_all env host s hs).outputs
    unfolding ask_all
    ask_all-Adds [] s = Adds-nothing P s.outputs
    ask_all-Adds (h ∷ hs) s =
        Adds-trans P _ _ _ (Adds-one P s.outputs (cancelling h.to h.cause_id) tt)
          (ask_all-Adds hs _)

    handle_cancel-Adds :
        (s : Session Approval Hash Raw) (e : Envelope)
        → Adds P s.outputs (handle_cancel env host s e).outputs
    unfolding handle_cancel
    handle_cancel-Adds s e = elim (Bool-cases (cancel_root env host s e == "")) [
      | inl empty ↦ rw (handle_cancel, empty) (Adds-nothing P s.outputs)
      | inr named ↦
          rw (handle_cancel, named) (ask_all-Adds (take s.in_flight (cancel_root env host s e)).1 _)
    ]

    reconcile-Adds :
        (t : Turn) (s : Session Approval Hash Raw) (e : Envelope) (d : Dest) (key : SpecKey)
        (running : Option String)
        → ((out : Envelope) → P d out)
        → Adds P s.outputs (reconcile env host t s e d key running).outputs
    unfolding reconcile
    reconcile-Adds t s e d key running h =
        elim (Bool-cases (is_final host.json (host.text_of e.payload))) [
          | inr partial ↦ rw (reconcile, partial) (forward-Adds env host P t s _ d h)
          | inl final ↦
              let (spec', hit, stale) = resolve host.json s.spec key running in
              elim (Bool-cases hit) [
                | inl yes_hit ↦ rw (reconcile, final, yes_hit) (Adds-nothing P s.outputs)
                | inr miss ↦
                    rw (reconcile, final, miss)
                      (Adds-trans P _ _ _ (abandon_all-Adds (record s { spec = spec' }) stale d)
                        (forward-Adds env host P t _ _ d h))
              ]
        ]

    forward_speculatively-Adds :
        (t : Turn) (s : Session Approval Hash Raw) (e : Envelope) (d : Dest) (root : String)
        → ((out : Envelope) → P d out)
        → Adds P s.outputs (forward_speculatively env host t s e d root).outputs
    unfolding forward_speculatively
    forward_speculatively-Adds t s e d root h =
        elim (Bool-cases (not (e.kind == kind_data) || (root == ""))) [
          | inl plain ↦ rw (forward_speculatively, plain) (forward-Adds env host P t s e d h)
          | inr guess ↦ rw (forward_speculatively, guess) (reconcile-Adds t _ e d _ _ h)
        ]

    record_attestation-Adds :
        (s : Session Approval Hash Raw) (root : String) (e : Envelope)
        → Adds P s.outputs (record_attestation env host s root e).outputs
    unfolding record_attestation
    record_attestation-Adds s root e =
        elim (Bool-cases (nat_beq (length e.attest) 0 || (root == ""))) [
          | inl bare ↦ rw (record_attestation, bare) (Adds-nothing P s.outputs)
          | inr claims ↦ elim (Option-cases (host.attestation_hash e.attest)) [
            | inl broken ↦ rw (record_attestation, claims, broken) (Adds-nothing P s.outputs)
            | inr (hash, read) ↦ elim (Bool-cases (host.attestation_stored hash)) [
              | inl ok ↦ rw (record_attestation, claims, read, ok) (Adds-nothing P s.outputs)
              | inr bad ↦ rw (record_attestation, claims, read, bad) (Adds-nothing P s.outputs)
            ]
          ]
        ]

    hold_for_approval-Adds :
        (s : Session Approval Hash Raw) (e : Envelope) (d : Dest)
        → Adds P s.outputs (hold_for_approval env host s e d).outputs
    unfolding hold_for_approval
    hold_for_approval-Adds s e d = Adds-one P s.outputs _ tt

    -- An edge that is free to travel, or that holds.
    travel-Adds :
        (t : Turn) (s : Session Approval Hash Raw) (e : Envelope) (root : String) (d : Dest)
        → ((d.speculative ≡ true) ⊎ (d.gate ≢ gate_human_approval) → (out : Envelope) → P d out)
        → Adds P s.outputs (travel env host t s e root d).outputs
    unfolding travel
    travel-Adds t s e root d h =
        let guessed = forward_speculatively env host t s e d root in
        let held = hold_for_approval env host s e d in
        let sent = forward env host t s e d in
        let by_gate = if d.gate == gate_human_approval then held else sent in
        elim (Bool-cases d.speculative) [
          | inl guess ↦
              subst (λ b. Adds P s.outputs (if b then guessed else by_gate).outputs) (sym guess)
                (forward_speculatively-Adds t s e d root (h (inl guess)))
          | inr sure ↦
              subst (λ b. Adds P s.outputs (if b then guessed else by_gate).outputs) (sym sure)
                (elim (Bool-cases (d.gate == gate_human_approval)) [
                  | inl gated ↦
                      subst (λ b. Adds P s.outputs (if b then held else sent).outputs) (sym gated)
                        (hold_for_approval-Adds s e d)
                  | inr open_edge ↦
                      subst (λ b. Adds P s.outputs (if b then held else sent).outputs)
                        (sym open_edge)
                        (forward-Adds env host P t s e d (h (inr (str_ne _ _ open_edge))))
                ])
        ]

    travel_all-Adds :
        (ds : List Dest) (t : Turn) (s : Session Approval Hash Raw) (e : Envelope) (root : String)
        → ((d : Dest)
            → (d.speculative ≡ true) ⊎ (d.gate ≢ gate_human_approval)
            → (out : Envelope) → P d out)
        → Adds P s.outputs (travel_all env host t s e root ds).outputs
    unfolding travel_all
    travel_all-Adds [] t s e root h = Adds-nothing P s.outputs
    travel_all-Adds (d ∷ ds) t s e root h =
        Adds-trans P _ _ _ (travel-Adds t s e root d (h d))
          (travel_all-Adds ds t (travel env host t s e root d) e root h)

    route_onward-Adds :
        (t : Turn) (s : Session Approval Hash Raw) (e : Envelope)
        → ((d : Dest)
            → (d.speculative ≡ true) ⊎ (d.gate ≢ gate_human_approval)
            → (out : Envelope) → P d out)
        → Adds P s.outputs (route_onward env host t s e).outputs
    unfolding route_onward
    route_onward-Adds t s e h = elim (Bool-cases (has s.cancelled (root_of s e))) [
      | inl silent ↦ rw (route_onward, silent) (Adds-nothing P s.outputs)
      | inr alive ↦
          rw (route_onward, alive)
            (Adds-trans P _ _ _ (record_attestation-Adds s (root_of s e) e)
              (travel_all-Adds _ t (record_attestation env host s (root_of s e) e) e _ h))
    ]

    seal_denial-Adds :
        (t : Turn) (s : Session Approval Hash Raw) (held : PendingGate) (a : Option Approval)
        → Adds P s.outputs (seal_denial env host t s held a).outputs
    unfolding seal_denial
    seal_denial-Adds t s held a = elim (Option-cases s.ledger) [
      | inl bare ↦ rw (seal_denial, bare) (Adds-nothing P s.outputs)
      | inr (l, has_ledger) ↦ elim (Option-cases held.to.skill) [
        | inl client ↦ rw (seal_denial, has_ledger, client) (Adds-nothing P s.outputs)
        | inr (live, skilled) ↦ rw (seal_denial, has_ledger, skilled) (Adds-nothing P s.outputs)
      ]
    ]

    keep_approval-Adds :
        (s : Session Approval Hash Raw) (id : String) (a : Option Approval)
        → Adds P s.outputs (keep_approval env host s id a).outputs
    keep_approval-Adds s id none = Adds-nothing P s.outputs
    keep_approval-Adds s id (some a) = Adds-nothing P s.outputs

    answer_gate-Adds :
        (t : Turn) (s : Session Approval Hash Raw) (resp : Envelope) (held : PendingGate)
        → ((verdict : Verdict Approval)
            → authorize_gate env host s held
                (host.answer_of resp.payload).approve
                (host.answer_of resp.payload).approval
              ≡ inr verdict
            → verdict.approve ≡ true
            → (out : Envelope) → P held.to out)
        → Adds P s.outputs (answer_gate env host t s resp held).outputs
    unfolding answer_gate
    answer_gate-Adds t s resp held h =
        elim (Sum-cases (
          authorize_gate env host s held (host.answer_of resp.payload).approve
            (host.answer_of resp.payload).approval)) [
              | inl (err, refused) ↦
                  rw (answer_gate, refused)
                    (Adds-trans P _ _ _ (seal_denial-Adds t s held none)
                      (emit_error-Adds env host P _ resp.id _))
              | inr (verdict, said) ↦ elim (Bool-cases verdict.approve) [
                | inl approved ↦
                    rw (answer_gate, said, approved)
                      (Adds-trans P _ _ _ (keep_approval-Adds s held.env.id verdict.approval)
                        (forward-Adds env host P t _ held.env held.to (h verdict said approved)))
                | inr denied ↦
                    rw (answer_gate, said, denied)
                      (Adds-trans P _ _ _ (seal_denial-Adds t s held verdict.approval)
                        (emit_error-Adds env host P _ resp.id _))
              ]
            ]

  -- What a gate's answer authorizes does not depend on what waits, nor on the log.
  authorize_gate_same :
      (s : Session Approval Hash Raw) (pending : Dict String PendingGate) (events : List Event)
      (held : PendingGate) (approve : Bool) (a : Option Approval)
      → authorize_gate env host (record s { pending = pending; events = events }) held approve a
        ≡ authorize_gate env host s held approve a
  unfolding authorize_gate authorize_signed
  authorize_gate_same s pending events held approve none = refl
  authorize_gate_same s pending events held approve (some a) = refl

  -- Every delivery that route makes of an envelope is on an edge that carries no human-approval gate
  -- or is speculative, or the envelope is the answer to the gate that holds a delivery on that edge,
  -- and authorize_gate lets the answer through as an approval.
  pub gate_never_bypassed :
      (t : Turn) (s : Session Approval Hash Raw) (e : Envelope)
      → Adds (IsFree s e) s.outputs (route env host t s e).outputs
  unfolding route resolve_gate
  gate_never_bypassed t s e =
      let P = IsFree s e in
      let logged = append_event s e.id e.cause_id e.kind in
      let onward : (s' : Session Approval Hash Raw)
          → Adds P s'.outputs (route_onward env host t s' e).outputs =
        λ s'.
          route_onward-Adds P t s' e
            (λ d free out. elim free [ inl sp ↦ inl sp | inr un ↦ inr (inl un) ]) in
      elim (Bool-cases (e.kind == kind_cancel)) [
        | inl cancel ↦ rw (route, cancel) (handle_cancel-Adds P logged e)
        | inr on1 ↦ elim (Bool-cases (e.kind == kind_data)) [
          | inl data_env ↦ elim (Bool-cases (seen logged.dedup e.idem).1) [
            | inl again ↦ rw (route, on1, data_env, again) (Adds-nothing P s.outputs)
            | inr new ↦
                rw (route, on1, data_env, new)
                  (onward (record logged { dedup = (seen logged.dedup e.idem).0 }))
          ]
          | inr on2 ↦ elim (Bool-cases (e.kind == kind_confirm_response)) [
            | inr on3 ↦ rw (route, on1, on2, on3) (onward logged)
            | inl answer ↦ elim (Option-cases (lookup e.cause_id s.pending)) [
              | inl gone ↦
                  rw (route, on1, on2, answer, resolve_gate, gone) (Adds-nothing P s.outputs)
              | inr (held, waiting) ↦
                  rw (route, on1, on2, answer, resolve_gate, waiting)
                    (answer_gate-Adds P t _ e held λ verdict said approved out. inr (
                      inr (
                        held,
                        verdict,
                        (str_eq_iff e.kind kind_confirm_response).0 answer,
                        waiting,
                        refl,
                        sym (authorize_gate_same s _ _ held _ _) ∙ said,
                        approved,
                      )))
            ]
          ]
        ]
      ]
