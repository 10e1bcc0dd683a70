-- ===== src/Executor/Policy.antt =====
-- The node's authorization policy (kernel/internal/executor/policy.go): one ordered document, first
-- match wins, and the check that combines it with what a graph asks for.
pub mod Match
pub mod Authority
pub mod Rate
pub mod Gates
pub mod Load
pub mod Loaded
mod Tests
use deepaxiom_aura.Base.{
  ℕ, ◌≢◌, refl, str_eq, str_ne, String, Bool, true, false, not, ◌&&◌, ◌||◌, Option, none, some,
  List, [], ◌∷◌, ◌==◌, string_eq, ◌+++◌, has_prefix, has_suffix, trim_suffix, if◌then◌else◌, Dict,
  length, leb,
}
use deepaxiom_aura.Base.Int.{ℤ}
use deepaxiom_aura.Executor.Types.{type_motor, gate_human_approval, gate_none}

abbrev pub decision_allow : String
decision_allow = "allow"

abbrev pub decision_gate : String
decision_gate = "gate"

abbrev pub decision_deny : String
decision_deny = "deny"

unfoldable pub decision_valid : String → Bool
decision_valid d = (d == decision_allow) || (d == decision_gate) || (d == decision_deny)

abbrev pub seal_failure_deliver : String
seal_failure_deliver = "deliver"

abbrev pub seal_failure_refuse : String
seal_failure_refuse = "refuse"

unfoldable pub seal_failure_valid : String → Bool
seal_failure_valid s = (s == "") || (s == seal_failure_deliver) || (s == seal_failure_refuse)

abbrev pub speculation_deny : String
speculation_deny = "deny"

pub record Limit : Type 0 where
  pub per_minute : ℤ

pub record Route : Type 0 where
  pub match : String
  pub prefer : List String
  pub avoid : List String
  pub reason : String

pub record Rule : Type 0 where
  pub match : String
  pub decision : String
  pub reason : String
  pub limit : Option Limit

-- bucket: a fixed-window counter. Times are milliseconds.
pub record Bucket : Type 0 where
  pub window_start : ℕ
  pub count : ℕ

pub record Policy : Type 0 where
  pub version : ℤ
  pub default_effect : String
  pub allow_graph_waiver : Option Bool
  pub speculation : String
  pub require_signed_approval : Bool
  pub require_approval_context : List String
  pub on_seal_failure : String
  pub rules : List Rule
  pub routes : List Route
  pub source : String
  pub hash : String
  pub buckets : Dict String Bucket

-- p.AllowGraphWaiver != nil && *p.AllowGraphWaiver
unfoldable pub graph_waiver_allowed : Policy → Bool
graph_waiver_allowed p = elim p.allow_graph_waiver [ none ↦ false | some b ↦ b ]

unfoldable pub speculation_allowed : Policy → Bool
speculation_allowed p = not (p.speculation == speculation_deny)

unfoldable pub signed_approval_required : Policy → Bool
signed_approval_required p = p.require_signed_approval || leb 1 (length p.require_approval_context)

unfoldable pub seal_failure_refuses : Policy → Bool
seal_failure_refuses p = p.on_seal_failure == seal_failure_refuse

unfoldable pub seal_failure_stance : Policy → String
seal_failure_stance p = if p.on_seal_failure == "" then seal_failure_deliver else p.on_seal_failure

unfoldable pub match_capability : String → String → Bool
match_capability match capability =
    if match == "*"
    then true
    else if has_suffix match ".*"
    then (let prefix = trim_suffix match ".*" in
        (capability == prefix) || has_prefix capability (prefix +++ "."))
    else match == capability

unfoldable pub is_effect : String → Bool
is_effect capability = (capability == type_motor) || has_prefix capability (type_motor +++ ".")

-- The loops of `RouteFor` and `Decide`: the first element whose pattern matches.
unfoldable pub route_for : List Route → String → List String × List String
route_for [] capability = ([], [])
route_for (r ∷ rs) capability =
    if match_capability r.match capability then (r.prefer, r.avoid) else route_for rs capability

unfoldable pub first_rule : List Rule → String → Option Rule
first_rule [] capability = none
first_rule (r ∷ rs) capability =
    if match_capability r.match capability then some r else first_rule rs capability

-- Why a decision was reached: `reason` of `Decide`, with the texts that it formats as constructors.
pub data Reason : Type 0 where
  written : String → Reason
  policy_rule : String → Reason
  default_effect : Reason
  not_an_effect : Reason

pub record Ruling : Type 0 where
  pub decision : String
  pub reason : Reason
  pub limit : Option Limit

unfoldable pub decide : Policy → String → Ruling
decide p capability = elim (first_rule p.rules capability) [
  | some r ↦ record {
    decision = r.decision;
    reason = if r.reason == "" then policy_rule r.match else written r.reason;
    limit = r.limit;
  }
  | none ↦
      if is_effect capability
      then record { decision = p.default_effect; reason = default_effect; limit = none }
      else record { decision = decision_allow; reason = not_an_effect; limit = none }
]

pub record Authorization : Type 0 where
  pub gate : String
  pub waived : Bool

-- `denied` carries the reason of the error's text.
pub data Authorized : Type 0 where
  granted : Authorization → Authorized
  denied : Reason → Authorized

unfoldable pub authorize : Policy → String → String → Authorized
authorize p capability graph_gate =
    let ruling = decide p capability in
    if ruling.decision == decision_deny
    then denied ruling.reason
    else if graph_gate == gate_human_approval
    then granted (record { gate = gate_human_approval; waived = false })
    else if (graph_gate == gate_none) && graph_waiver_allowed p
    then granted (record { gate = ""; waived = ruling.decision == decision_gate })
    else if ruling.decision == decision_gate
    then granted (record { gate = gate_human_approval; waived = false })
    else granted (record { gate = ""; waived = false })

-- The decisions are three different words.
pub decisions_differ :
    (decision_gate ≢ decision_deny)
    × (decision_allow ≢ decision_deny)
    × (decision_allow ≢ decision_gate)
unfolding str_eq
decisions_differ = (str_ne _ _ refl, str_ne _ _ refl, str_ne _ _ refl)
