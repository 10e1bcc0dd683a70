-- ===== src/Executor/Session/Answers.antt =====
-- What an answer to a gate authorizes (`authorizeGate` of kernel/internal/executor/session.go).
use deepaxiom_aura.Base.{
  String, Bool, true, false, Option, none, some, ◌⊎◌, inl, inr, List, [], ◌∷◌, ◌≡◌, refl, arith,
  Bool-cases, ◌==◌, string_eq, bool_eq, length, leb,
}
use deepaxiom_aura.Ledger.Records.{Outside}
use deepaxiom_aura.Executor.Policy.{signed_approval_required}
use deepaxiom_aura.Executor.Session.{Session, Host, PendingGate}
use deepaxiom_aura.Executor.Session.Gate.{
  Verdict, approval_approve, unbound_labels, authorize_signed, authorize_gate,
}

-- Each label is one that the approval shows.
abbrev pub ShowsAll :
    {Approval : Type 0} → (Approval → String → Bool) → Approval → List String → Type 0
ShowsAll shows a [] = Unit
ShowsAll shows a (label ∷ labels) = (shows a label ≡ true) × ShowsAll shows a labels

none_unbound :
    {Approval : Type 0} (shows : Approval → String → Bool) (a : Approval) (labels : List String)
    → leb 1 (length (unbound_labels shows a labels)) ≡ false
    → ShowsAll shows a labels
unfolding unbound_labels
none_unbound shows a [] h = tt
none_unbound shows a (label ∷ labels) h = elim (Bool-cases (shows a label)) [
  | inl shown ↦ (shown, none_unbound shows a labels (rw shown at h))
  | inr hidden ↦ absurd (ground (arith, rw hidden at h))
]

module _ {Approval Hash Raw Other : Type 0} (env : Outside Approval Hash Raw)
    (host : Host Approval Other) where
  -- A signed approval that the roster of this node vouches for, for this delivery, that shows what the
  -- policy demands, and that says the same as the answer beside it.
  abbrev pub IsVouchedFor : Session Approval Hash Raw → PendingGate → Bool → Approval → Type 0
  IsVouchedFor s held approve a =
      (s.has_roster ≡ true)
      × (host.roster_ok a s.node_id s.id held.env.id ≡ true)
      × ShowsAll host.shows a s.policy.require_approval_context
      × ((host.decision a == approval_approve) ≡ approve)

  authorize_signed_sound :
      (s : Session Approval Hash Raw) (held : PendingGate) (approve : Bool) (a : Approval)
      (v : Verdict Approval)
      → authorize_signed env host s held approve a ≡ inr v
      → IsVouchedFor s held approve a × (v.approval ≡ some a) × (v.approve ≡ approve)
  unfolding authorize_signed
  authorize_signed_sound s held approve a v h = elim (Bool-cases s.has_roster) [
    | inr bare ↦ absurd (ground (arith, rw (authorize_signed, bare) at h))
    | inl roster ↦ elim (Bool-cases (host.roster_ok a s.node_id s.id held.env.id)) [
      | inr forged ↦ absurd (ground (arith, rw (authorize_signed, roster, forged) at h))
      | inl genuine ↦
          elim (Bool-cases
            (leb 1 (length (unbound_labels host.shows a s.policy.require_approval_context)))) [
              | inl missing ↦
                  absurd (ground (arith, rw (authorize_signed, roster, genuine, missing) at h))
              | inr bound ↦ elim (Bool-cases ((host.decision a == approval_approve) == approve)) [
                | inr differs ↦
                    absurd
                      (ground (arith, rw (authorize_signed, roster, genuine, bound, differs) at h))
                | inl agrees ↦
                    let said = rw (authorize_signed, roster, genuine, bound, agrees) at h in
                    let same : (host.decision a == approval_approve) ≡ approve =
                      (bool_eq.agrees_iff _ _).0 agrees in
                    (
                      (roster, genuine, none_unbound host.shows a _ bound, same),
                      ground (arith, said),
                      ground (arith, said, same),
                    )
              ]
            ]
    ]
  ]

  -- Whenever authorize_gate gives a verdict and not an error, the verdict is what the answer says;
  -- either it carries a signed approval that the roster vouches for, that shows every label the
  -- policy requires and that says the same, or the answer is unsigned and the policy requires no
  -- signature.
  pub authorized_by_signature :
      (s : Session Approval Hash Raw) (held : PendingGate) (approve : Bool)
      (answer : Option Approval) (v : Verdict Approval)
      → authorize_gate env host s held approve answer ≡ inr v
      → (v.approve ≡ approve)
        × (((a : Approval) × (answer ≡ some a)
              × (v.approval ≡ some a)
              × IsVouchedFor s held approve a)
            ⊎ ((answer ≡ none) × (v.approval ≡ none) × (signed_approval_required s.policy ≡ false)))
  unfolding authorize_gate
  authorized_by_signature s held approve none v h =
      elim (Bool-cases (signed_approval_required s.policy)) [
        | inl required ↦ absurd (ground (arith, rw (authorize_gate, required) at h))
        | inr free ↦
            let said = rw (authorize_gate, free) at h in
            (ground (arith, said), inr (refl, ground (arith, said), free))
      ]
  authorized_by_signature s held approve (some a) v h =
      let (vouched, carried, same) = authorize_signed_sound s held approve a v h in
      (same, inl (a, refl, carried, vouched))
