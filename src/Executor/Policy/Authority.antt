-- ===== src/Executor/Policy/Authority.antt =====
-- Who decides: a graph may be stricter than the policy, never laxer.
use deepaxiom_aura.Base.{
  ℕ, max, ◌≡◌, ◌⊎◌, ◌↔◌, inl, inr, refl, ap, String, Bool, true, false, ◌&&◌, none, some, List, [],
  ◌∷◌, ◌++◌, arith, ◌==◌, string_eq, str_eq_iff, if◌then◌else◌, Bool-cases,
}
use deepaxiom_aura.Executor.Types.{gate_human_approval, gate_none, gates_differ}
use deepaxiom_aura.Executor.Policy.{
  Policy, decisions_differ, Rule, Authorized, granted, denied, decide, first_rule, authorize,
  graph_waiver_allowed, decision_deny, decision_gate, match_capability, is_effect,
}

-- The order in which the source reads decisions: allow < gate < deny.
abbrev pub strictness : String → ℕ
strictness d = if d == decision_deny then 2 else if d == decision_gate then 1 else 0

abbrev pub outcome_strictness : Authorized → ℕ
outcome_strictness (denied _) = 2
outcome_strictness (granted a) = if a.gate == gate_human_approval then 1 else 0

abbrev pub asked_strictness : String → ℕ
asked_strictness graph_gate = if graph_gate == gate_human_approval then 1 else 0

abbrev pub outcome_waived : Authorized → Bool
outcome_waived (denied _) = false
outcome_waived (granted a) = a.waived

-- The outcome of authorize is as strict as the stricter of what the policy decided and what the
-- graph asked for, except that on a node that permits waivers a graph that waives the gate gets
-- none, unless the policy denies.
pub authorize-strictness :
    (p : Policy) (capability graph_gate : String)
    → let d = strictness (decide p capability).decision in
      outcome_strictness (authorize p capability graph_gate) ≡ (
        if (graph_gate == gate_none) && graph_waiver_allowed p
        then (if (decide p capability).decision == decision_deny then 2 else 0)
        else max d (asked_strictness graph_gate))
unfolding authorize
authorize-strictness p capability graph_gate = ground (
  arith,
  gates_differ,
  decisions_differ,
  str_eq_iff gate_human_approval gate_human_approval,
  str_eq_iff "" gate_human_approval,
  str_eq_iff graph_gate gate_none,
  str_eq_iff graph_gate gate_human_approval,
  str_eq_iff (decide p capability).decision decision_deny,
  str_eq_iff (decide p capability).decision decision_gate,
)

-- A waiver is on record exactly when the policy asked for a gate and the graph waived it on a node
-- that permits waivers.
pub authorize-waived :
    (p : Policy) (capability graph_gate : String)
    → (outcome_waived (authorize p capability graph_gate) ≡ true) ↔ (
        ((decide p capability).decision ≡ decision_gate)
        × (graph_gate ≡ gate_none)
        × (graph_waiver_allowed p ≡ true))
unfolding authorize
authorize-waived p capability graph_gate = ground (
  arith,
  gates_differ,
  decisions_differ,
  str_eq_iff gate_human_approval gate_human_approval,
  str_eq_iff "" gate_human_approval,
  str_eq_iff graph_gate gate_none,
  str_eq_iff graph_gate gate_human_approval,
  str_eq_iff (decide p capability).decision decision_deny,
  str_eq_iff (decide p capability).decision decision_gate,
)

abbrev pub NoneMatch : List Rule → String → Type 0
NoneMatch [] capability = Unit
NoneMatch (r ∷ rs) capability =
    (match_capability r.match capability ≡ false) × NoneMatch rs capability

-- The first rule that matches: it stands behind rules that do not.
pub record IsFirst (rules : List Rule) (capability : String) (r : Rule) : Type 0 where
  pub above : List Rule
  pub below : List Rule
  pub split : rules ≡ above ++ r ∷ below
  pub skipped : NoneMatch above capability
  pub matches : match_capability r.match capability ≡ true

first_rule_lem :
    (rules : List Rule) (capability : String)
    → ((r : Rule) × (first_rule rules capability ≡ some r) × IsFirst rules capability r)
      ⊎ ((first_rule rules capability ≡ none) × NoneMatch rules capability)
unfolding first_rule
first_rule_lem [] capability = inr (refl, tt)
first_rule_lem (x ∷ rules) capability = elim (Bool-cases (match_capability x.match capability)) [
  | inl hit ↦ inl (
    x,
    rw hit refl,
    record { above = []; below = rules; split = refl; skipped = tt; matches = hit },
  )
  | inr miss ↦ elim (first_rule_lem rules capability) [
    | inl (r, found, first) ↦ inl (
      r,
      rw miss found,
      record {
        above = x ∷ first.above;
        below = first.below;
        split = ap (λ rs. x ∷ rs) first.split;
        skipped = (miss, first.skipped);
        matches = first.matches;
      },
    )
    | inr (missing, rest) ↦ inr (rw miss missing, (miss, rest))
  ]
]

-- Every decision is that of the first rule that matches, with its limit; where no rule matches, an
-- effect falls to the default and anything else is allowed, both without a limit.
pub decide_in_order :
    (p : Policy) (capability : String)
    → ((r : Rule) × IsFirst p.rules capability r
        × ((decide p capability).decision ≡ r.decision)
        × ((decide p capability).limit ≡ r.limit))
      ⊎ (NoneMatch p.rules capability
          × ((decide p capability).limit ≡ none)
          × ((decide p capability).decision
              ≡ (if is_effect capability then p.default_effect else "allow")))
unfolding decide
decide_in_order p capability = elim (first_rule_lem p.rules capability) [
  | inl (r, found, first) ↦ inl (r, first, rw (found, decide) refl, rw (found, decide) refl)
  | inr (missing, all) ↦ inr (all, ground arith, ground arith)
]
