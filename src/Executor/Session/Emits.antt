-- ===== src/Executor/Session/Emits.antt =====
-- What a call of a session adds to its outputs, as a rule on the deliveries among them.
use deepaxiom_aura.Base.{
  String, inl, inr, List, [], ◌∷◌, ◌++◌, ◌≡◌, refl, sym, ap, ◌∙◌, subst, append_assoc, append-nil,
  Bool-cases, Option-cases, ◌==◌, string_eq, lookup,
}
use deepaxiom_aura.Channel.{Envelope}
use deepaxiom_aura.Ledger.Records.{Outside, SealReply, sealed, unchecked, unsealed, broken_tree}
use deepaxiom_aura.Executor.Types.{Dest}
use deepaxiom_aura.Executor.Policy.{seal_failure_refuses}
use deepaxiom_aura.Executor.Budget.{drop_expired}
use deepaxiom_aura.Executor.Session.{
  Session, Host, Turn, Output, Refusal, delivered, asked, cancelling, told, emit_error,
  take_approval, root_of,
}
use deepaxiom_aura.Executor.Session.Forward.{
  next_hop, charge_hop, trace_hop, is_effect_hop, seal_outcome, seal_live, seal_effect, send_hop,
  finish_hop, seal_hop, deliver_hop, check_hop, forward,
}

-- A rule on a delivery; the other outputs are free.
abbrev pub Obeys : (Dest → Envelope → Type 0) → Output → Type 0
Obeys P (delivered d e) = P d e
Obeys P (asked id d e labels) = Unit
Obeys P (cancelling d cause) = Unit
Obeys P (told cause refusal) = Unit

abbrev pub AllObey : (Dest → Envelope → Type 0) → List Output → Type 0
AllObey P [] = Unit
AllObey P (out ∷ outs) = Obeys P out × AllObey P outs

AllObey-append :
    (P : Dest → Envelope → Type 0) (xs ys : List Output)
    → AllObey P xs
    → AllObey P ys
    → AllObey P (xs ++ ys)
AllObey-append P [] ys hx hy = hy
AllObey-append P (x ∷ xs) ys hx hy = (hx.0, AllObey-append P xs ys hx.1 hy)

-- The later outputs are the earlier ones, and behind them some that obey the rule.
abbrev pub Adds : (Dest → Envelope → Type 0) → List Output → List Output → Type 0
Adds P before after = (new : List Output) × (after ≡ before ++ new) × AllObey P new

pub Adds-nothing : (P : Dest → Envelope → Type 0) (outs : List Output) → Adds P outs outs
Adds-nothing P outs = ([], sym (append-nil outs), tt)

pub Adds-one :
    (P : Dest → Envelope → Type 0) (outs : List Output) (out : Output)
    → Obeys P out
    → Adds P outs (outs ++ out ∷ [])
Adds-one P outs out h = (out ∷ [], refl, (h, tt))

pub Adds-trans :
    (P : Dest → Envelope → Type 0) (a b c : List Output) → Adds P a b → Adds P b c → Adds P a c
Adds-trans P a b c (xs, ex, hx) (ys, ey, hy) =
    (xs ++ ys, ey ∙ ap (λ l. l ++ ys) ex ∙ append_assoc a xs ys, AllObey-append P xs ys hx hy)

module _ {Approval Hash Raw Other : Type 0} (env : Outside Approval Hash Raw)
    (host : Host Approval Other) where
  pub outputs-take_approval :
      (s : Session Approval Hash Raw) (id : String) → (take_approval s id).0.outputs ≡ s.outputs
  unfolding take_approval
  outputs-take_approval s id = elim (Bool-cases (id == "")) [
    | inl e ↦ rw e refl
    | inr e ↦ elim (Option-cases (lookup id s.approved)) [
      | inl gone ↦ rw (e, gone) refl
      | inr (a, there) ↦ rw (e, there) refl
    ]
  ]

  outputs-seal_outcome :
      (s : Session Approval Hash Raw) (out : Envelope) (reply : SealReply)
      → (seal_outcome env host s out reply).0.outputs ≡ s.outputs
  unfolding seal_outcome
  outputs-seal_outcome s out (sealed receipt) = refl
  outputs-seal_outcome s out (unchecked receipt) = refl
  outputs-seal_outcome s out (unsealed err) = refl
  outputs-seal_outcome s out broken_tree = refl

  outputs-seal_effect :
      (t : Turn) (s : Session Approval Hash Raw) (out : Envelope) (d : Dest) (root : String)
      → (seal_effect env host t s out d root).0.outputs ≡ s.outputs
  unfolding seal_effect seal_live
  outputs-seal_effect t s out d root = elim (Option-cases s.ledger) [
    | inl bare ↦ rw (seal_effect, bare) refl
    | inr (l, has_ledger) ↦ elim (Option-cases d.skill) [
      | inl client ↦ rw (seal_effect, has_ledger, client) refl
      | inr (live, skilled) ↦ elim (Bool-cases (is_effect_hop env host live out)) [
        | inr plain ↦ rw (seal_effect, has_ledger, skilled, plain) refl
        | inl effect ↦
            rw (seal_effect, has_ledger, skilled, effect, seal_live)
              (outputs-seal_outcome _ out _ ∙ outputs-take_approval s out.cause_id)
      ]
    ]
  ]

  pub emit_error-Adds :
      (P : Dest → Envelope → Type 0) (s : Session Approval Hash Raw) (cause : String) (r : Refusal)
      → Adds P s.outputs (emit_error host s cause r).outputs
  unfolding emit_error
  emit_error-Adds P s cause r = Adds-one P s.outputs (told cause r) tt

  pub send_hop-Adds :
      (P : Dest → Envelope → Type 0) (t : Turn) (s : Session Approval Hash Raw) (src out : Envelope)
      (d : Dest)
      → P d out
      → Adds P s.outputs (send_hop env host t s src out d).outputs
  unfolding send_hop
  send_hop-Adds P t s src out d h = elim (Bool-cases (drop_expired t.now out)) [
    | inl late ↦ rw late (Adds-nothing P s.outputs)
    | inr timely ↦ elim (Bool-cases (host.send_ok d out)) [
      | inl ok ↦ rw (timely, ok) (Adds-one P s.outputs (delivered d out) h)
      | inr bad ↦
          rw (timely, bad)
            (Adds-trans P _ _ _ (Adds-one P s.outputs (delivered d out) h)
              (emit_error-Adds P _ src.id _))
    ]
  ]

  outputs-trace_hop :
      (s : Session Approval Hash Raw) (out : Envelope) (root : String) (d : Dest)
      → (trace_hop env host s out root d).outputs ≡ s.outputs
  unfolding trace_hop
  outputs-trace_hop s out root d = elim (Bool-cases (root == "")) [
    | inl e ↦ rw e refl
    | inr e ↦ rw e refl
  ]

  pub seal_hop-Adds :
      (P : Dest → Envelope → Type 0) (t : Turn) (s : Session Approval Hash Raw) (src out : Envelope)
      (d : Dest)
      → ((e : Envelope) → P d e)
      → Adds P s.outputs (seal_hop env host t s src out d).outputs
  unfolding seal_hop finish_hop
  seal_hop-Adds P t s src out d h =
      let root = root_of s src in
      let s1 = trace_hop env host s out root d in
      let (s', out', failed) = seal_effect env host t s1 out d root in
      let kept : s'.outputs ≡ s.outputs =
        outputs-seal_effect t s1 out d root ∙ outputs-trace_hop s out root d in
      subst (λ outs. Adds P outs (seal_hop env host t s src out d).outputs) kept
        (elim (Option-cases failed) [
          | inl fine ↦ rw (seal_hop, finish_hop, fine) (send_hop-Adds P t s' src out' d (h out'))
          | inr (reply, bad) ↦ elim (Bool-cases (seal_failure_refuses s'.policy)) [
            | inl stop ↦ rw (seal_hop, finish_hop, bad, stop) (emit_error-Adds P s' src.id _)
            | inr go ↦ rw (seal_hop, finish_hop, bad, go) (send_hop-Adds P t s' src out' d (h out'))
          ]
        ])

  outputs-charge_hop :
      (s : Session Approval Hash Raw) (out : Envelope)
      → (charge_hop env host s out).0.outputs ≡ s.outputs
  outputs-charge_hop s out = elim (Option-cases s.context) [
    | inl free ↦ rw free refl
    | inr (c, bound) ↦ rw bound refl
  ]

  pub deliver_hop-Adds :
      (P : Dest → Envelope → Type 0) (t : Turn) (s : Session Approval Hash Raw) (src : Envelope)
      (d : Dest)
      → ((e : Envelope) → P d e)
      → Adds P s.outputs (deliver_hop env host t s src d).outputs
  unfolding deliver_hop next_hop
  deliver_hop-Adds P t s src d h =
      let (out, s') = next_hop env host t s src d in
      let (s'', over) = charge_hop env host s' out in
      subst (λ outs. Adds P outs (deliver_hop env host t s src d).outputs)
        (outputs-charge_hop s' out)
        (elim (Bool-cases over) [
          | inl blown ↦ rw (deliver_hop, blown) (emit_error-Adds P s'' src.id _)
          | inr fits ↦ rw (deliver_hop, fits) (seal_hop-Adds P t s'' src out d h)
        ])

  -- A hop delivers on its own edge only.
  pub forward-Adds :
      (P : Dest → Envelope → Type 0) (t : Turn) (s : Session Approval Hash Raw) (src : Envelope)
      (d : Dest)
      → ((e : Envelope) → P d e)
      → Adds P s.outputs (forward env host t s src d).outputs
  unfolding forward
  forward-Adds P t s src d h =
      let (policy', refused) = check_hop env host t s src d in
      elim (Option-cases refused) [
        | inl allowed ↦
            rw (forward, allowed) (deliver_hop-Adds P t (record s { policy = policy' }) src d h)
        | inr (reason, limited) ↦
            rw (forward, limited) (emit_error-Adds P (record s { policy = policy' }) src.id _)
      ]
