-- ===== src/Executor/Policy/Tests.antt =====
-- Concrete runs of the policy.
use deepaxiom_aura.Base.{
  inr, all_of, before_mark, after_mark, contains_text, first_of, ℕ, ◌+◌, min, max, ◌≡◌, ◌≢◌, ◌⊎◌,
  ◌↔◌, refl, true, false, not, ◌&&◌, ◌==◌, string_eq, none, some, [], ◌∷◌, arith, length, str_eq,
  lookup, if◌then◌else◌, has_prefix, has_suffix, trim_suffix,
}
use deepaxiom_aura.Base.Int.{pos}
use deepaxiom_aura.Executor.Types.{Dest, Live, type_motor, gate_none, gate_human_approval}
use deepaxiom_aura.Executor.Policy.{
  Policy, Rule, decision_valid, seal_failure_valid, authorize, decide, first_rule, match_capability,
  is_effect, decision_gate, decision_deny, graph_waiver_allowed, speculation_allowed,
}
use deepaxiom_aura.Executor.Policy.Authority.{
  strictness, outcome_strictness, asked_strictness, outcome_waived, IsFirst, NoneMatch,
  authorize-strictness, authorize-waived, decide_in_order,
}
use deepaxiom_aura.Executor.Policy.Rate.{Buckets, allow_all, window_grants}
use deepaxiom_aura.Executor.Policy.Gates.{apply_policy, wired, wired_speculation, published_gate}
use deepaxiom_aura.Ledger.Context.{
  canonical_context, context_lines, same_label, label_matches, digest_matches, run_of, chars,
  join_lines,
}
use deepaxiom_aura.Executor.Policy.Load.{
  Files, load_policy, check_policy, or_gate, check_rules, check_rule, validate_required_context,
  settle, finalize, or_false,
}
use deepaxiom_aura.Executor.Policy.Loaded.{InForce, load_policy-InForce}

abbrev robots : Policy
robots = record {
  version = pos 1;
  default_effect = "gate";
  allow_graph_waiver = some true;
  speculation = "";
  require_signed_approval = false;
  require_approval_context = [];
  on_seal_failure = "";
  rules = record { match = "motor.arm.*"; decision = "deny"; reason = ""; limit = none } ∷ [];
  routes = [];
  source = "";
  hash = "";
  buckets = [];
}

decide_in_order_example :
    ((r : Rule) × IsFirst robots.rules "motor.pay" r
      × ((decide robots "motor.pay").decision ≡ r.decision)
      × ((decide robots "motor.pay").limit ≡ r.limit))
    ⊎ (NoneMatch robots.rules "motor.pay"
        × ((decide robots "motor.pay").limit ≡ none)
        × ((decide robots "motor.pay").decision
            ≡ (if is_effect "motor.pay" then robots.default_effect else "allow")))
decide_in_order_example = decide_in_order robots "motor.pay"

authorize-strictness_example :
    let d = strictness (decide robots "motor.pay").decision in
    outcome_strictness (authorize robots "motor.pay" "none") ≡ (
      if ("none" == gate_none) && graph_waiver_allowed robots
      then (if (decide robots "motor.pay").decision == decision_deny then 2 else 0)
      else max d (asked_strictness "none"))
authorize-strictness_example = authorize-strictness robots "motor.pay" "none"

authorize-waived_example : (outcome_waived (authorize robots "motor.pay" "none") ≡ true) ↔ (
    ((decide robots "motor.pay").decision ≡ decision_gate)
    × ("none" ≡ gate_none)
    × (graph_waiver_allowed robots ≡ true))
authorize-waived_example = authorize-waived robots "motor.pay" "none"

abbrev used_once : Buckets
used_once = ("motor.pay", record { window_start = 5; count = 1 }) ∷ []

found_bucket : lookup "motor.pay" used_once ≡ some (record { window_start = 5; count = 1 })
unfolding lookup str_eq
found_bucket = refl

window_grants_example :
    1 + (allow_all used_once "motor.pay" 2 (6 ∷ 7 ∷ 8 ∷ [])).1
    ≡ min 2 (1 + length {A = ℕ} (6 ∷ 7 ∷ 8 ∷ []))
window_grants_example =
    window_grants "motor.pay" 2 5 used_once 1 (6 ∷ 7 ∷ 8 ∷ []) found_bucket (omega arith)
      (omega arith, (omega arith, (omega arith, tt)))

abbrev payer : Live
payer = record {
  manifest_id = "pay";
  manifest_version = "1";
  manifest_type = "motor";
  capability = "motor.pay";
  compensates = none;
}

abbrev edge : Dest
edge = record {
  ref = "pay";
  port = "in";
  gate = "none";
  skill = some payer;
  waived = false;
  schema = "std/text@1";
  qos = "reliable";
  speculative = false;
  deadline_ms = pos 0;
  priority = pos 0;
  from = "llm.out";
}

abbrev gated_edge : Dest
gated_edge = record edge { gate = "human-approval" }

wired_edge : apply_policy edge robots "published" ≡ wired gated_edge
unfolding apply_policy authorize decide first_rule match_capability is_effect graph_waiver_allowed
    speculation_allowed has_prefix has_suffix trim_suffix str_eq
wired_edge = refl

wired_speculation_example :
    ((gated_edge.speculative && (payer.manifest_type == type_motor)) ≡ false)
    × ((gated_edge.speculative && not (speculation_allowed robots)) ≡ false)
    × (gated_edge ≡ record edge {
      gate = gated_edge.gate;
      waived = gated_edge.waived;
      speculative = gated_edge.speculative;
    })
wired_speculation_example =
    wired_speculation edge payer robots "published" gated_edge refl wired_edge

published_gate_example :
    (((decide robots payer.capability).decision ≢ decision_gate)
      ⊎ (gated_edge.gate ≡ gate_human_approval))
    × (gated_edge.waived ≡ false)
    × ((payer.manifest_type ≢ type_motor) ⊎ (edge.gate ≢ ""))
published_gate_example =
    published_gate edge payer robots "published" gated_edge refl wired_edge refl

abbrev site_policy : Policy
site_policy = record robots {
  default_effect = "";
  allow_graph_waiver = none;
  require_approval_context = "screen" ∷ "invoice" ∷ [];
}

-- A node's files, with one policy in them.
abbrev site : Files
site = record {
  read_file = λ path. if path == "policy.yaml" then some "raw" else none;
  unmarshal = λ raw. if raw == "raw" then some site_policy else none;
  marshal = λ p. "built-in";
  sha256_hex = λ raw. raw;
  trim_space = λ text. text;
  sort_by_label = λ entries. entries;
}

abbrev loaded : Policy
loaded = record site_policy {
  default_effect = "gate";
  allow_graph_waiver = some false;
  source = "policy.yaml";
  hash = "sha256:raw";
}

site_loads : load_policy site "policy.yaml" ≡ inr loaded
unfolding load_policy check_policy decision_valid seal_failure_valid or_gate check_rules check_rule
    validate_required_context canonical_context context_lines same_label label_matches
    digest_matches run_of chars join_lines first_of before_mark after_mark all_of contains_text
    has_prefix settle finalize or_false str_eq
site_loads = refl

load_policy-InForce_example : InForce site loaded
load_policy-InForce_example = load_policy-InForce site "policy.yaml" loaded site_loads
