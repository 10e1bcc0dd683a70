-- ===== src/Executor/Policy/Gates.antt =====
-- `applyPolicy` of kernel/internal/executor/session.go: the one place that every edge passes through.
use deepaxiom_aura.Base.{
  ◌≡◌, ◌≢◌, refl, ◌⊎◌, inl, inr, String, Bool, false, not, ◌&&◌, none, some, arith, ◌==◌, string_eq,
  str_eq_iff, Bool-cases, if◌then◌else◌,
}
use deepaxiom_aura.Executor.Types.{
  Dest, Live, type_motor, gate_none, gate_human_approval, gates_differ,
}
use deepaxiom_aura.Executor.Policy.{
  Policy, Reason, Authorization, Authorized, granted, denied, authorize, decide, decision_gate,
  decision_deny, decisions_differ, speculation_allowed,
}

abbrev pub mode_published : String
mode_published = "published"

pub data Wiring : Type 0 where
  wired : Dest → Wiring
  speculative_motor : Wiring
  ungated_motor : Wiring
  policy_denies : Reason → Wiring

-- What remains once the two motor rules have passed.
abbrev take_gate : Dest → Authorized → Wiring
take_gate d (denied reason) = policy_denies reason
take_gate d (granted a) = wired (record d { gate = a.gate; waived = a.waived })

-- In published mode the graph has no vote.
abbrev pub heard_gate : Bool → String → String
heard_gate published graph_gate = if published && (graph_gate == gate_none) then "" else graph_gate

abbrev pub heard_speculation : Policy → Dest → Bool
heard_speculation p d = d.speculative && speculation_allowed p

wire_skill : Dest → Live → Policy → Bool → Wiring
wire_skill d live p published =
    let motor = live.manifest_type == type_motor in
    if d.speculative && motor
    then speculative_motor
    else if published && (d.gate == "") && motor
    then ungated_motor
    else take_gate (record d { speculative = heard_speculation p d })
        (authorize p live.capability (heard_gate published d.gate))

unfoldable pub apply_policy : Dest → Policy → String → Wiring
unfolding wire_skill
apply_policy d p mode = elim d.skill [
  | none ↦ wired d
  | some live ↦ wire_skill d live p (mode == mode_published)
]

take_gate_wired :
    (d d' : Dest) (auth : Authorized)
    → take_gate d auth ≡ wired d'
    → (a : Authorization) × (auth ≡ granted a)
      × (d' ≡ record d { gate = a.gate; waived = a.waived })
take_gate_wired d d' (denied reason) h = cc
take_gate_wired d d' (granted a) h = (a, refl, ground arith)

-- What a wired edge into a skill has passed, and what became of it.
record Passed (d : Dest) (live : Live) (p : Policy) (mode : String) (d' : Dest) : Type 0 where
  auth : Authorization
  authorized :
      authorize p live.capability (heard_gate (mode == mode_published) d.gate) ≡ granted auth
  result :
      d' ≡ record d { gate = auth.gate; waived = auth.waived; speculative = heard_speculation p d }
  no_motor_ahead : (d.speculative && (live.manifest_type == type_motor)) ≡ false
  explicit :
      ((mode == mode_published) && (d.gate == "") && (live.manifest_type == type_motor)) ≡ false

passed :
    (d : Dest) (live : Live) (p : Policy) (mode : String) (d' : Dest)
    → d.skill ≡ some live
    → apply_policy d p mode ≡ wired d'
    → Passed d live p mode d'
unfolding apply_policy wire_skill
passed d live p mode d' skill ok =
    let ok' : wire_skill d live p (mode == mode_published) ≡ wired d' = ground arith in
    elim (Bool-cases (d.speculative && (live.manifest_type == type_motor))) [
      | inl ahead ↦ cc (rw ahead at ok')
      | inr careful ↦
          elim (Bool-cases
            ((mode == mode_published) && (d.gate == "") && (live.manifest_type == type_motor))) [
              | inl omitted ↦ cc (rw (careful, omitted) at ok')
              | inr stated ↦
                  let (a, auth, result) =
                    take_gate_wired (record d { speculative = heard_speculation p d }) d'
                      (authorize p live.capability (heard_gate (mode == mode_published) d.gate))
                      (rw (careful, stated) at ok') in
                  record {
                    auth = a;
                    authorized = auth;
                    result = result;
                    no_motor_ahead = careful;
                    explicit = stated;
                  }
            ]
    ]

module _ (d : Dest) (live : Live) (p : Policy) (mode : String) (d' : Dest)
    (skill : d.skill ≡ some live) (ok : apply_policy d p mode ≡ wired d') where
  -- A wired edge into a motor skill is never speculative, nor is any wired edge into a skill on a
  -- node that opted out; apart from that flag, its gate and the record of its waiver, wiring changes
  -- nothing of the edge.
  pub wired_speculation :
      ((d'.speculative && (live.manifest_type == type_motor)) ≡ false)
      × ((d'.speculative && not (speculation_allowed p)) ≡ false)
      × (d' ≡ record d { gate = d'.gate; waived = d'.waived; speculative = d'.speculative })
  wired_speculation =
      let h = passed d live p mode d' skill ok in
      (
        ground (arith, h.result, h.no_motor_ahead),
        ground (arith, h.result),
        ground (arith, h.result),
      )

  unheard : mode ≡ mode_published → heard_gate (mode == mode_published) d.gate ≢ gate_none
  unheard published e =
      ground (arith, gates_differ, str_eq_iff mode mode_published, str_eq_iff d.gate gate_none)

  -- In published mode no graph lowers a gate: on a wired edge into a skill what the policy gates is
  -- gated, no waiver is on record, and an edge into a motor skill states its gate.
  pub published_gate :
      mode ≡ mode_published
      → (((decide p live.capability).decision ≢ decision_gate) ⊎ (d'.gate ≡ gate_human_approval))
        × (d'.waived ≡ false)
        × ((live.manifest_type ≢ type_motor) ⊎ (d.gate ≢ ""))
  unfolding authorize
  published_gate published =
      let h = passed d live p mode d' skill ok in
      (
        ground (
          arith,
          h.result,
          h.authorized,
          unheard published,
          gates_differ,
          decisions_differ,
          str_eq_iff (decide p live.capability).decision decision_gate,
          str_eq_iff (decide p live.capability).decision decision_deny,
          str_eq_iff (heard_gate (mode == mode_published) d.gate) gate_none,
          str_eq_iff (heard_gate (mode == mode_published) d.gate) gate_human_approval,
        ),
        ground (
          arith,
          h.result,
          h.authorized,
          unheard published,
          str_eq_iff (heard_gate (mode == mode_published) d.gate) gate_none,
        ),
        ground (
          arith,
          h.explicit,
          str_eq_iff live.manifest_type type_motor,
          str_eq_iff d.gate "",
          str_eq_iff mode mode_published,
        ),
      )
