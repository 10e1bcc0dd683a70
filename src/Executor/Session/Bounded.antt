-- ===== src/Executor/Session/Bounded.antt =====
-- Whatever is routed, a session's indexes stay within their bounds (`Route` of
-- kernel/internal/executor/session.go).
pub mod OneHop
use deepaxiom_aura.Base.{
  String, Bool, true, false, not, ◌||◌, Option, none, some, inl, inr, List, [], ◌∷◌, ◌≡◌, refl, sym,
  subst, Bool-cases, Option-cases, Sum-cases, if◌then◌else◌, ◌==◌, string_eq, lookup, nat_beq,
  length,
}
use deepaxiom_aura.Channel.{Envelope, kind_data, kind_cancel}
use deepaxiom_aura.Channel.Dedup.{seen, seen-Inv}
use deepaxiom_aura.Ledger.Records.{Outside}
use deepaxiom_aura.Executor.Types.{Dest, gate_human_approval}
use deepaxiom_aura.Executor.Causal.{Hop, has, take, add}
use deepaxiom_aura.Executor.Causal.Bounds.{take-Inv, add-Inv}
use deepaxiom_aura.Executor.Causal.Attest.{attest_add-Inv}
use deepaxiom_aura.Executor.Speculation.{SpecKey, fold, is_final, resolve}
use deepaxiom_aura.Executor.Speculation.Laws.{fold-Inv, resolve-Inv, speculate-Inv}
use deepaxiom_aura.Executor.Session.{
  Session, Host, Turn, PendingGate, root_of, kind_confirm_response, append_event,
}
use deepaxiom_aura.Executor.Session.Forward.{forward}
use deepaxiom_aura.Executor.Session.Gate.{
  hold_for_approval, authorize_gate, answer_gate, resolve_gate, seal_denial, keep_approval,
}
use deepaxiom_aura.Executor.Session.Route.{
  record_attestation, abandon_speculation, abandon_all, reconcile, forward_speculatively, travel,
  travel_all, ask_all, handle_cancel, cancel_root, route_onward, route,
}
use deepaxiom_aura.Executor.Session.Bounded.OneHop.{
  IsBounded, emit_error-IsBounded, forward-IsBounded,
}

-- What holds on both sides of a test holds of the test.
either :
    {Approval Hash Raw : Type 0} (b : Bool) (s s' : Session Approval Hash Raw)
    → IsBounded s
    → IsBounded s'
    → IsBounded (if b then s else s')
either true s s' v v' = v
either false s s' v v' = v'

module _ {Approval Hash Raw Other : Type 0} (env : Outside Approval Hash Raw)
    (host : Host Approval Other) where
  abandon_all-IsBounded :
      (ids : List String) (s : Session Approval Hash Raw) (d : Dest)
      → IsBounded s
      → IsBounded (abandon_all env host s ids d)
  unfolding abandon_all abandon_speculation
  abandon_all-IsBounded [] s d v = v
  abandon_all-IsBounded (id ∷ ids) s d v =
      abandon_all-IsBounded ids (abandon_speculation env host s id d) d (
        let v' : IsBounded (record s { cancelled = add s.cancelled id }) =
          (v.0, v.1, add-Inv s.cancelled id v.2, v.3, v.4, v.5) in
        elim (Option-cases d.skill) [
          | inl client ↦ rw (abandon_speculation, client) v'
          | inr (live, skilled) ↦ rw (abandon_speculation, skilled) v'
        ])

  ask_all-IsBounded :
      (hs : List Hop) (s : Session Approval Hash Raw)
      → IsBounded s
      → IsBounded (ask_all env host s hs)
  unfolding ask_all
  ask_all-IsBounded [] s v = v
  ask_all-IsBounded (h ∷ hs) s v = ask_all-IsBounded hs _ v

  handle_cancel-IsBounded :
      (s : Session Approval Hash Raw) (e : Envelope)
      → IsBounded s
      → IsBounded (handle_cancel env host s e)
  unfolding handle_cancel
  handle_cancel-IsBounded s e v =
      let root = cancel_root env host s e in
      elim (Bool-cases (root == "")) [
        | inl empty ↦ rw (handle_cancel, empty) v
        | inr named ↦
            rw (handle_cancel, named)
              (ask_all-IsBounded (take s.in_flight root).1 _
                (v.0, take-Inv s.in_flight root v.1, add-Inv s.cancelled root v.2, v.3, v.4, v.5))
      ]

  reconcile-IsBounded :
      (t : Turn) (s : Session Approval Hash Raw) (e : Envelope) (d : Dest) (key : SpecKey)
      (running : Option String)
      → IsBounded s
      → IsBounded (reconcile env host t s e d key running)
  unfolding reconcile
  reconcile-IsBounded t s e d key running v =
      elim (Bool-cases (is_final host.json (host.text_of e.payload))) [
        | inr partial ↦
            rw (reconcile, partial)
              (let v' = forward-IsBounded env host t s _ d v in
                (v'.0, v'.1, v'.2, v'.3, speculate-Inv _ key e.id v'.4, v'.5))
        | inl final ↦
            let (spec', hit, stale) = resolve host.json s.spec key running in
            let v' : IsBounded (record s { spec = spec' }) =
              (v.0, v.1, v.2, v.3, resolve-Inv host.json s.spec key running v.4, v.5) in
            elim (Bool-cases hit) [
              | inl same ↦ rw (reconcile, final, same) v'
              | inr miss ↦
                  rw (reconcile, final, miss)
                    (forward-IsBounded env host t _ _ d
                      (abandon_all-IsBounded stale (record s { spec = spec' }) d v'))
            ]
      ]

  travel-IsBounded :
      (t : Turn) (s : Session Approval Hash Raw) (e : Envelope) (root : String) (d : Dest)
      → IsBounded s
      → IsBounded (travel env host t s e root d)
  unfolding travel forward_speculatively hold_for_approval
  travel-IsBounded t s e root d v =
      let sent = forward env host t s e d in
      let guessed = forward_speculatively env host t s e d root in
      let held = hold_for_approval env host s e d in
      let sent_ok : IsBounded sent = forward-IsBounded env host t s e d v in
      let held_ok : IsBounded held = v in
      let guessed_ok : IsBounded guessed =
        elim (Bool-cases (not (e.kind == kind_data) || (root == ""))) [
          | inl plain ↦ rw (forward_speculatively, plain) sent_ok
          | inr guess ↦
              rw (forward_speculatively, guess)
                (reconcile-IsBounded t _ e d _ _ (
                  v.0,
                  v.1,
                  v.2,
                  v.3,
                  fold-Inv host.json s.spec _ e.schema (host.text_of e.payload) v.4,
                  v.5,
                ))
        ] in
      either d.speculative guessed (if d.gate == gate_human_approval then held else sent) guessed_ok
        (either (d.gate == gate_human_approval) held sent held_ok sent_ok)

  travel_all-IsBounded :
      (ds : List Dest) (t : Turn) (s : Session Approval Hash Raw) (e : Envelope) (root : String)
      → IsBounded s
      → IsBounded (travel_all env host t s e root ds)
  unfolding travel_all
  travel_all-IsBounded [] t s e root v = v
  travel_all-IsBounded (d ∷ ds) t s e root v =
      travel_all-IsBounded ds t (travel env host t s e root d) e root
        (travel-IsBounded t s e root d v)

  record_attestation-IsBounded :
      (s : Session Approval Hash Raw) (root : String) (e : Envelope)
      → IsBounded s
      → IsBounded (record_attestation env host s root e)
  unfolding record_attestation
  record_attestation-IsBounded s root e v =
      elim (Bool-cases (nat_beq (length e.attest) 0 || (root == ""))) [
        | inl bare ↦ rw (record_attestation, bare) v
        | inr claims ↦ elim (Option-cases (host.attestation_hash e.attest)) [
          | inl broken ↦ rw (record_attestation, claims, broken) v
          | inr (hash, read) ↦ elim (Bool-cases (host.attestation_stored hash)) [
            | inl ok ↦
                rw (record_attestation, claims, read, ok)
                  (v.0, v.1, v.2, attest_add-Inv s.attests root hash v.3, v.4, v.5)
            | inr bad ↦ rw (record_attestation, claims, read, bad) v
          ]
        ]
      ]

  route_onward-IsBounded :
      (t : Turn) (s : Session Approval Hash Raw) (e : Envelope)
      → IsBounded s
      → IsBounded (route_onward env host t s e)
  unfolding route_onward
  route_onward-IsBounded t s e v = elim (Bool-cases (has s.cancelled (root_of s e))) [
    | inl silent ↦ rw (route_onward, silent) v
    | inr alive ↦
        rw (route_onward, alive)
          (travel_all-IsBounded _ t _ e _ (record_attestation-IsBounded s (root_of s e) e v))
  ]

  seal_denial-IsBounded :
      (t : Turn) (s : Session Approval Hash Raw) (held : PendingGate) (a : Option Approval)
      → IsBounded s
      → IsBounded (seal_denial env host t s held a)
  unfolding seal_denial
  seal_denial-IsBounded t s held a v = elim (Option-cases s.ledger) [
    | inl bare ↦ rw (seal_denial, bare) v
    | inr (l, has_ledger) ↦ elim (Option-cases held.to.skill) [
      | inl client ↦ rw (seal_denial, has_ledger, client) v
      | inr (live, skilled) ↦ rw (seal_denial, has_ledger, skilled) v
    ]
  ]

  keep_approval-IsBounded :
      (s : Session Approval Hash Raw) (id : String) (a : Option Approval)
      → IsBounded s
      → IsBounded (keep_approval env host s id a)
  keep_approval-IsBounded s id none v = v
  keep_approval-IsBounded s id (some a) v = v

  answer_gate-IsBounded :
      (t : Turn) (s : Session Approval Hash Raw) (resp : Envelope) (held : PendingGate)
      → IsBounded s
      → IsBounded (answer_gate env host t s resp held)
  unfolding answer_gate
  answer_gate-IsBounded t s resp held v =
      elim (Sum-cases (
        authorize_gate env host s held (host.answer_of resp.payload).approve
          (host.answer_of resp.payload).approval)) [
            | inl (err, refused) ↦
                rw (answer_gate, refused)
                  (emit_error-IsBounded env host _ resp.id _
                    (seal_denial-IsBounded t s held none v))
            | inr (verdict, said) ↦ elim (Bool-cases verdict.approve) [
              | inl approved ↦
                  rw (answer_gate, said, approved)
                    (forward-IsBounded env host t _ held.env held.to
                      (keep_approval-IsBounded s held.env.id verdict.approval v))
              | inr denied ↦
                  rw (answer_gate, said, denied)
                    (emit_error-IsBounded env host _ resp.id _
                      (seal_denial-IsBounded t s held verdict.approval v))
            ]
          ]

  pub route-IsBounded :
      (t : Turn) (s : Session Approval Hash Raw) (e : Envelope)
      → IsBounded s
      → IsBounded (route env host t s e)
  unfolding route resolve_gate
  route-IsBounded t s e v =
      let logged = append_event s e.id e.cause_id e.kind in
      elim (Bool-cases (e.kind == kind_cancel)) [
        | inl cancel ↦ rw (route, cancel) (handle_cancel-IsBounded logged e v)
        | inr on1 ↦ elim (Bool-cases (e.kind == kind_data)) [
          | inl data_env ↦
              let v' : IsBounded (record logged { dedup = (seen logged.dedup e.idem).0 }) =
                (v.0, v.1, v.2, v.3, v.4, seen-Inv s.dedup e.idem v.5) in
              elim (Bool-cases (seen logged.dedup e.idem).1) [
                | inl again ↦ rw (route, on1, data_env, again) v'
                | inr new ↦ rw (route, on1, data_env, new) (route_onward-IsBounded t _ e v')
              ]
          | inr on2 ↦ elim (Bool-cases (e.kind == kind_confirm_response)) [
            | inr on3 ↦ rw (route, on1, on2, on3) (route_onward-IsBounded t logged e v)
            | inl answer ↦ elim (Option-cases (lookup e.cause_id s.pending)) [
              | inl gone ↦ rw (route, on1, on2, answer, resolve_gate, gone) v
              | inr (held, waiting) ↦
                  rw (route, on1, on2, answer, resolve_gate, waiting)
                    (answer_gate-IsBounded t _ e held v)
            ]
          ]
        ]
      ]

  -- A run of envelopes, each in its turn.
  unfoldable pub route_all :
      Session Approval Hash Raw → List (Turn × Envelope) → Session Approval Hash Raw
  route_all s [] = s
  route_all s ((t, e) ∷ es) = route_all (route env host t s e) es

  -- Whatever sequence of envelopes a session routes, each of its indexes stays within its bound and
  -- its order lists exactly its keys: the roots of envelopes, the deliveries in flight, the
  -- cancelled roots, the attestations, the guesses and the seen keys.
  pub route_all-IsBounded :
      (es : List (Turn × Envelope)) (s : Session Approval Hash Raw)
      → IsBounded s
      → IsBounded (route_all s es)
  unfolding route_all
  route_all-IsBounded [] s v = v
  route_all-IsBounded ((t, e) ∷ es) s v =
      route_all-IsBounded es (route env host t s e) (route-IsBounded t s e v)
