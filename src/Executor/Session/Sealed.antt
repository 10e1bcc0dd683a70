-- ===== src/Executor/Session/Sealed.antt =====
-- No effect without its seal, on a node that refuses (`forward` and `sealEffect` of
-- kernel/internal/executor/session.go).
use deepaxiom_aura.Base.{
  ℕ, String, true, Option, none, some, inl, inr, ◌≡◌, refl, sym, ap, ◌∙◌, subst, arith, Bool-cases,
  Option-cases, if◌then◌else◌, ◌==◌, string_eq, str_eq_iff, lookup,
}
use deepaxiom_aura.Base.Int.{pos, ltb_ℤ}
use deepaxiom_aura.Channel.{Envelope, kind_data}
use deepaxiom_aura.Ledger.Records.{
  Ledger, SealRequest, SealReply, sealed, unchecked, unsealed, broken_tree, Outside,
}
use deepaxiom_aura.Ledger.Chain.{seal}
use deepaxiom_aura.Executor.Types.{Dest, Live, type_motor}
use deepaxiom_aura.Executor.Budget.{drop_expired}
use deepaxiom_aura.Executor.Policy.{Policy, seal_failure_refuses, decide}
use deepaxiom_aura.Executor.Policy.Rate.{check_rate}
use deepaxiom_aura.Executor.Session.{
  Session, Host, Turn, Refusal, emit_error, take_approval, root_of, unsealable, context_exceeded,
}
use deepaxiom_aura.Executor.Session.Forward.{
  next_hop, charge_hop, trace_hop, is_effect_hop, seal_request, seal_outcome, seal_live,
  seal_effect, send_hop, finish_hop, seal_hop, deliver_hop, check_hop, forward,
}
use deepaxiom_aura.Executor.Session.Emits.{
  Adds, emit_error-Adds, send_hop-Adds, outputs-take_approval,
}

module _ {Approval Hash Raw Other : Type 0} (env : Outside Approval Hash Raw)
    (host : Host Approval Other) where
  -- The receipt of a delivery is that of an entry that the ledger sealed for it in this call, as
  -- delivered, under the skill's capability, and the session keeps that ledger.
  abbrev pub IsReceipted :
      Turn → Ledger Hash Raw → Live → Dest → Session Approval Hash Raw → Dest → Envelope → Type 0
  IsReceipted t l live d after d' out =
      (req : SealRequest Approval) × (l' : Ledger Hash Raw) × (seal env l t.world req
        ≡ (l', sealed out.receipt))
      × (req.envelope ≡ out.id)
      × (req.capability ≡ live.capability)
      × (req.outcome ≡ "delivered")
      × (after.ledger ≡ some l')
      × (d' ≡ d)

  ledger-emit_error :
      (s : Session Approval Hash Raw) (cause : String) (r : Refusal)
      → (emit_error host s cause r).ledger ≡ s.ledger
  unfolding emit_error
  ledger-emit_error s cause r = refl

  pub ledger-send_hop :
      (t : Turn) (s : Session Approval Hash Raw) (src out : Envelope) (d : Dest)
      → (send_hop env host t s src out d).ledger ≡ s.ledger
  unfolding send_hop emit_error
  ledger-send_hop t s src out d = elim (Bool-cases (drop_expired t.now out)) [
    | inl late ↦ rw late refl
    | inr timely ↦ elim (Bool-cases (host.send_ok d out)) [
      | inl ok ↦ rw (timely, ok) refl
      | inr bad ↦ rw (timely, bad) refl
    ]
  ]

  stopped :
      (t : Turn) (s s' : Session Approval Hash Raw) (src out : Envelope) (d : Dest) (live : Live)
      (l : Ledger Hash Raw) (reply : SealReply)
      → seal_hop env host t s src out d ≡ emit_error host s' src.id (unsealable reply)
      → Adds
          (IsReceipted t l live d (seal_hop env host t s src out d))
          s'.outputs
          (seal_hop env host t s src out d).outputs
  stopped t s s' src out d live l reply hop =
      subst (λ x. Adds (IsReceipted t l live d x) s'.outputs x.outputs) (sym hop)
        (emit_error-Adds env host _ s' src.id (unsealable reply))

  -- The end of an effect's hop, by what the ledger answers.
  settle :
      (t : Turn) (s s' : Session Approval Hash Raw) (src out : Envelope) (d : Dest) (live : Live)
      (l l' : Ledger Hash Raw) (req : SealRequest Approval) (reply : SealReply)
      → seal env l t.world req ≡ (l', reply)
      → req.envelope ≡ out.id
      → req.capability ≡ live.capability
      → req.outcome ≡ "delivered"
      → s'.ledger ≡ some l'
      → seal_failure_refuses s'.policy ≡ true
      → seal_effect env host t (trace_hop env host s out (root_of s src) d) out d (root_of s src)
        ≡ seal_outcome env host s' out reply
      → Adds
          (IsReceipted t l live d (seal_hop env host t s src out d))
          s'.outputs
          (seal_hop env host t s src out d).outputs
  unfolding seal_hop finish_hop seal_outcome
  settle t s s' src out d live l l' req (sealed receipt) asked named capable outcome kept strict
        run =
      let out' : Envelope = record out { receipt = receipt } in
      let hop : seal_hop env host t s src out d ≡ send_hop env host t s' src out' d =
        ap (finish_hop env host t src d) run in
      subst (λ x. Adds (IsReceipted t l live d x) s'.outputs x.outputs) (sym hop)
        (send_hop-Adds env host (IsReceipted t l live d (send_hop env host t s' src out' d)) t s'
          src out' d
          (req, l', asked, named, capable, outcome, ledger-send_hop t s' src out' d ∙ kept, refl))
  settle t s s' src out d live l l' req (unchecked receipt) asked named capable outcome kept strict
        run =
      stopped t s s' src out d live l (unchecked receipt)
        (ap (finish_hop env host t src d) run ∙ rw strict refl)
  settle t s s' src out d live l l' req (unsealed err) asked named capable outcome kept strict run =
      stopped t s s' src out d live l (unsealed err)
        (ap (finish_hop env host t src d) run ∙ rw strict refl)
  settle t s s' src out d live l l' req broken_tree asked named capable outcome kept strict run =
      stopped t s s' src out d live l broken_tree
        (ap (finish_hop env host t src d) run ∙ rw strict refl)

  refuses-take_approval :
      (s : Session Approval Hash Raw) (id : String) → (take_approval s id).0.policy ≡ s.policy
  unfolding take_approval
  refuses-take_approval s id = elim (Bool-cases (id == "")) [
    | inl e ↦ rw e refl
    | inr e ↦ elim (Option-cases (lookup id s.approved)) [
      | inl gone ↦ rw (e, gone) refl
      | inr (a, there) ↦ rw (e, there) refl
    ]
  ]

  pub seal_effect-live :
      (t : Turn) (s : Session Approval Hash Raw) (out : Envelope) (d : Dest) (root : String)
      (live : Live) (l : Ledger Hash Raw)
      → s.ledger ≡ some l
      → d.skill ≡ some live
      → is_effect_hop env host live out ≡ true
      → seal_effect env host t s out d root ≡ seal_live env host t s out d root l live
  unfolding seal_effect
  seal_effect-live t s out d root live l has_ledger skilled effect =
      let plain : Session Approval Hash Raw × Envelope × Option SealReply = (s, out, none) in
      let hop = seal_live env host t s out d root in
      let by_skill : Ledger Hash Raw
          → Option Live
          → Session Approval Hash Raw × Envelope × Option SealReply =
        λ m o. elim o [
          | none ↦ plain
          | some x ↦ if is_effect_hop env host x out then hop m x else plain
        ] in
      let by_ledger : Option (Ledger Hash Raw)
          → Session Approval Hash Raw × Envelope × Option SealReply =
        λ o. elim o [ none ↦ plain | some m ↦ by_skill m d.skill ] in
      ap by_ledger has_ledger
      ∙ ap (by_skill l) skilled
      ∙ ap (λ b. if b then hop l live else plain) effect

  pub trace_hop-keeps :
      (s : Session Approval Hash Raw) (out : Envelope) (root : String) (d : Dest)
      → ((trace_hop env host s out root d).ledger ≡ s.ledger)
        × ((trace_hop env host s out root d).policy ≡ s.policy)
        × ((trace_hop env host s out root d).outputs ≡ s.outputs)
  unfolding trace_hop
  trace_hop-keeps s out root d = elim (Bool-cases (root == "")) [
    | inl e ↦ rw e (refl, refl, refl)
    | inr e ↦ rw e (refl, refl, refl)
  ]

  seal_hop-Receipted :
      (t : Turn) (s : Session Approval Hash Raw) (src out : Envelope) (d : Dest) (live : Live)
      (l : Ledger Hash Raw)
      → s.ledger ≡ some l
      → d.skill ≡ some live
      → is_effect_hop env host live out ≡ true
      → seal_failure_refuses s.policy ≡ true
      → Adds
          (IsReceipted t l live d (seal_hop env host t s src out d))
          s.outputs
          (seal_hop env host t s src out d).outputs
  unfolding seal_live seal_request
  seal_hop-Receipted t s src out d live l has_ledger skilled effect strict =
      let root = root_of s src in
      let s1 = trace_hop env host s out root d in
      let (s2, approver) = take_approval s1 out.cause_id in
      let req = seal_request env host s2 out d live root approver in
      let same_ledger : s1.ledger ≡ some l = (trace_hop-keeps s out root d).0 ∙ has_ledger in
      let same_policy : s1.policy ≡ s.policy = (trace_hop-keeps s out root d).1 in
      let same_outputs : s2.outputs ≡ s.outputs =
        outputs-take_approval env host s1 out.cause_id ∙ (trace_hop-keeps s out root d).2 in
      let (l', reply) = seal env l t.world req in
      let s3 : Session Approval Hash Raw = record s2 { ledger = some l' } in
      subst
        (λ outs.
          Adds (IsReceipted t l live d (seal_hop env host t s src out d)) outs
            (seal_hop env host t s src out d).outputs)
        same_outputs
        (settle t s s3 src out d live l l' req reply refl refl refl refl refl
          (rw (refuses-take_approval, same_policy) strict)
          (seal_effect-live t s1 out d root live l same_ledger skilled effect))

  charge_hop-keeps :
      (s : Session Approval Hash Raw) (out : Envelope)
      → ((charge_hop env host s out).0.ledger ≡ s.ledger)
        × ((charge_hop env host s out).0.policy ≡ s.policy)
        × ((charge_hop env host s out).0.outputs ≡ s.outputs)
  charge_hop-keeps s out = elim (Option-cases s.context) [
    | inl free ↦ rw free (refl, refl, refl)
    | inr (c, bound) ↦ rw bound (refl, refl, refl)
  ]

  refuses-check_rate :
      (now : ℕ) (p : Policy) (capability : String)
      → seal_failure_refuses (check_rate now p capability).0 ≡ seal_failure_refuses p
  unfolding check_rate seal_failure_refuses
  refuses-check_rate now p capability = elim (Option-cases (decide p capability).limit) [
    | inl free ↦ rw (check_rate, free) refl
    | inr (limit, bound) ↦ elim (Bool-cases (ltb_ℤ (pos 0) limit.per_minute)) [
      | inl some_limit ↦ rw (check_rate, bound, some_limit) refl
      | inr no_limit ↦ rw (check_rate, bound, no_limit) refl
    ]
  ]

  refuses-check_hop :
      (t : Turn) (s : Session Approval Hash Raw) (src : Envelope) (d : Dest)
      → seal_failure_refuses (check_hop env host t s src d).0 ≡ seal_failure_refuses s.policy
  unfolding check_hop
  refuses-check_hop t s src d = elim (Option-cases d.skill) [
    | inl client ↦ rw (check_hop, client) refl
    | inr (live, skilled) ↦ elim (Bool-cases (src.kind == kind_data)) [
      | inl data_env ↦
          rw (check_hop, skilled, data_env) (refuses-check_rate t.rate_now s.policy live.capability)
      | inr other ↦ rw (check_hop, skilled, other) refl
    ]
  ]

  deliver_hop-Receipted :
      (t : Turn) (s : Session Approval Hash Raw) (src : Envelope) (d : Dest) (live : Live)
      (l : Ledger Hash Raw)
      → s.ledger ≡ some l
      → d.skill ≡ some live
      → live.manifest_type ≡ type_motor
      → src.kind ≡ kind_data
      → seal_failure_refuses s.policy ≡ true
      → Adds
          (IsReceipted t l live d (deliver_hop env host t s src d))
          s.outputs
          (deliver_hop env host t s src d).outputs
  unfolding deliver_hop next_hop
  deliver_hop-Receipted t s src d live l has_ledger skilled motor data_env strict =
      let (out, s') = next_hop env host t s src d in
      let (s'', over) = charge_hop env host s' out in
      let kept = charge_hop-keeps s' out in
      let effect : is_effect_hop env host live out ≡ true = ground (
        arith,
        str_eq_iff live.manifest_type type_motor,
        str_eq_iff src.kind kind_data,
        motor,
        data_env,
      ) in
      let sealed_hop = seal_hop env host t s'' src out d in
      let blown_hop = emit_error host s'' src.id context_exceeded in
      let rule : Session Approval Hash Raw → Type 0 =
        λ x. Adds (IsReceipted t l live d x) s.outputs x.outputs in
      elim (Bool-cases over) [
        | inl blown ↦
            subst (λ b. rule (if b then blown_hop else sealed_hop)) (sym blown)
              (subst (λ outs. Adds (IsReceipted t l live d blown_hop) outs blown_hop.outputs) kept.2
                (emit_error-Adds env host _ s'' src.id context_exceeded))
        | inr fits ↦
            subst (λ b. rule (if b then blown_hop else sealed_hop)) (sym fits)
              (subst (λ outs. Adds (IsReceipted t l live d sealed_hop) outs sealed_hop.outputs)
                kept.2
                (seal_hop-Receipted t s'' src out d live l (kept.0 ∙ has_ledger) skilled effect
                  (ap seal_failure_refuses kept.1 ∙ strict)))
      ]

  -- On a node with a ledger whose policy refuses unsealed effects, every delivery that forward makes
  -- of data into a motor skill carries the receipt of an entry that the ledger sealed for it in that
  -- call, as delivered and under the skill's capability, and the session keeps the ledger with that
  -- entry.
  pub unsealed_never_delivered :
      (t : Turn) (s : Session Approval Hash Raw) (src : Envelope) (d : Dest) (live : Live)
      (l : Ledger Hash Raw)
      → s.ledger ≡ some l
      → d.skill ≡ some live
      → live.manifest_type ≡ type_motor
      → src.kind ≡ kind_data
      → seal_failure_refuses s.policy ≡ true
      → Adds
          (IsReceipted t l live d (forward env host t s src d))
          s.outputs
          (forward env host t s src d).outputs
  unfolding forward
  unsealed_never_delivered t s src d live l has_ledger skilled motor data_env strict =
      let (policy', refused) = check_hop env host t s src d in
      let checked : Session Approval Hash Raw = record s { policy = policy' } in
      elim (Option-cases refused) [
        | inl allowed ↦
            rw (forward, allowed)
              (deliver_hop-Receipted t checked src d live l has_ledger skilled motor data_env
                (refuses-check_hop t s src d ∙ strict))
        | inr (reason, limited) ↦
            rw (forward, limited) (emit_error-Adds env host _ checked src.id _)
      ]
