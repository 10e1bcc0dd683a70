-- ===== src/Executor/Policy/Load.antt =====
-- `LoadPolicy` of kernel/internal/executor/policy.go: a policy file becomes a policy, or is refused. What the
-- file holds, what YAML makes of it, SHA-256 and TrimSpace are parameters.
use deepaxiom_aura.Base.{
  ℕ, ◌+◌, ◌⊎◌, String, Bool, true, false, not, Option, none, some, inl, inr, List, [], ◌∷◌, map,
  ◌==◌, string_eq, if◌then◌else◌, ◌+++◌, length, nat_beq,
}
use deepaxiom_aura.Base.Int.{ℤ, pos, ltb_ℤ, eqb_ℤ}
use deepaxiom_aura.Ledger.Context.{ContextEntry, ContextError, canonical_context}
use deepaxiom_aura.Executor.Policy.{
  Policy, Rule, Limit, decision_gate, decision_valid, seal_failure_valid,
}

pub data LoadError : Type 0 where
  unreadable : String → LoadError
  unparsable : String → LoadError
  bad_version : ℤ → LoadError
  bad_default : String → LoadError
  bad_seal_failure : String → LoadError
  empty_match : ℕ → LoadError
  bad_decision : ℕ → String → LoadError
  negative_limit : ℕ → String → LoadError
  bad_context : ContextError → LoadError

-- `marshal` renders the built-in policy; `unmarshal` is none for what YAML refuses.
pub record Files : Type 0 where
  pub read_file : String → Option String
  pub unmarshal : String → Option Policy
  pub marshal : Policy → String
  pub sha256_hex : String → String
  pub trim_space : String → String
  pub sort_by_label : List ContextEntry → List ContextEntry

-- "sha256:" and 64 zeros
abbrev pub well_formed_digest : String
well_formed_digest = "sha256:0000000000000000000000000000000000000000000000000000000000000000"

abbrev pub with_digest : String → ContextEntry
with_digest label = record { label = label; digest = well_formed_digest }

abbrev pub limit_negative : Option Limit → Bool
limit_negative none = false
limit_negative (some l) = ltb_ℤ l.per_minute (pos 0)

unfoldable pub or_gate : String → String
or_gate d = if d == "" then decision_gate else d

-- A policy file without a word on the waiver does not grant it.
unfoldable pub or_false : Option Bool → Option Bool
or_false none = some false
or_false (some b) = some b

module _ (env : Files) where
  unfoldable pub validate_required_context : List String → Option ContextError
  validate_required_context labels =
      if nat_beq (length labels) 0
      then none
      else elim (canonical_context env.sort_by_label (map with_digest labels)) [
        | inl err ↦ some err
        | inr text ↦ none
      ]

  unfoldable pub check_rule : ℕ → Rule → Option LoadError
  check_rule i r =
      if env.trim_space r.match == ""
      then some (empty_match (i + 1))
      else if not (decision_valid r.decision)
      then some (bad_decision (i + 1) r.decision)
      else if limit_negative r.limit
      then some (negative_limit (i + 1) r.match)
      else none

  unfoldable pub check_rules : ℕ → List Rule → Option LoadError
  check_rules i [] = none
  check_rules i (r ∷ rules) = elim (check_rule i r) [
    | some e ↦ some e
    | none ↦ check_rules (i + 1) rules
  ]

  unfoldable pub check_policy : Policy → Option LoadError
  check_policy p =
      if not (eqb_ℤ p.version (pos 1))
      then some (bad_version p.version)
      else if not (decision_valid (or_gate p.default_effect))
      then some (bad_default (or_gate p.default_effect))
      else if not (seal_failure_valid p.on_seal_failure)
      then some (bad_seal_failure p.on_seal_failure)
      else elim (check_rules 0 p.rules) [
        | some e ↦ some e
        | none ↦ elim (validate_required_context p.require_approval_context) [
          | some e ↦ some (bad_context e)
          | none ↦ none
        ]
      ]

  unfoldable pub finalize : String → Policy → Policy
  finalize raw p = record p { hash = "sha256:" +++ env.sha256_hex raw; buckets = [] }

  unfoldable pub default_policy : Policy
  default_policy =
      let p : Policy = record {
        version = pos 1;
        default_effect = decision_gate;
        allow_graph_waiver = some true;
        speculation = "";
        require_signed_approval = false;
        require_approval_context = [];
        on_seal_failure = "";
        rules = [];
        routes = [];
        source = "built-in default (no --policy given)";
        hash = "";
        buckets = [];
      } in
      finalize (env.marshal p) p

  unfoldable pub settle : String → String → Policy → Policy
  settle path raw p = finalize raw (record p {
    default_effect = or_gate p.default_effect;
    allow_graph_waiver = or_false p.allow_graph_waiver;
    source = path;
  })

  unfoldable pub load_policy : String → LoadError ⊎ Policy
  load_policy path = if path == "" then inr default_policy else elim (env.read_file path) [
    | none ↦ inl (unreadable path)
    | some raw ↦ elim (env.unmarshal raw) [
      | none ↦ inl (unparsable path)
      | some p ↦ elim (check_policy p) [ some e ↦ inl e | none ↦ inr (settle path raw p) ]
    ]
  ]
