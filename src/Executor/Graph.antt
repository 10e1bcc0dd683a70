-- ===== src/Executor/Graph.antt =====
-- The IR of a graph (kernel/internal/executor/ir.go): its document, and the rules that `ParseGraph` checks.
-- What the JSON decoder gives is an argument; `skill` and `cause` of an origin, the constraints of a node
-- and the waves are not read here.
pub mod Accepted
mod Tests
use deepaxiom_aura.Base.{
  all_of, before_mark, after_mark, ℕ, String, Bool, true, false, not, ◌&&◌, ◌||◌, Option, none,
  some, ◌⊎◌, inl, inr, List, [], ◌∷◌, ◌==◌, string_eq, if◌then◌else◌, contains, contains_text,
  str_eq,
}
use deepaxiom_aura.Base.Int.{ℤ, pos, negsuc}
use deepaxiom_aura.Executor.Types.{client_ref, gate_human_approval, gate_none}

abbrev pub ir_major : String
ir_major = "1"

pub record Node : Type 0 where
  pub ref : String
  pub resolve : String
  pub use_id : String

pub record Edge : Type 0 where
  pub from : String
  pub to : String
  pub gate : String
  pub qos : String
  pub speculative : Bool
  pub deadline_ms : ℤ
  pub priority : ℤ

pub record Graph : Type 0 where
  pub ir : String
  pub graph_id : String
  pub origin_kind : String
  pub nodes : List Node
  pub edges : List Edge
  pub context_budget : ℤ

pub data GraphError : Type 0 where
  invalid_json : GraphError
  unsupported_ir : String → GraphError
  missing_graph_id : GraphError
  bad_origin : GraphError
  nothing_to_run : GraphError
  invalid_node_ref : String → GraphError
  duplicate_node_ref : String → GraphError
  nothing_declared : String → GraphError
  invalid_endpoint : String → String → GraphError
  unknown_node : String → GraphError
  unknown_gate : String → GraphError
  negative_deadline : String → String → GraphError
  speculative_gate : String → String → GraphError
  negative_budget : GraphError

abbrev pub is_negative : ℤ → Bool
is_negative (pos n) = false
is_negative (negsuc n) = true

-- strings.SplitN(ep, ".", 2)[0], and what stands after the dot.
unfoldable pub before_dot : String → String
before_dot ep = before_mark "." ep

unfoldable pub after_dot : String → Option String
after_dot ep = after_mark "." ep

abbrev pub port_class : String
port_class = "abcdefghijklmnopqrstuvwxyz0123456789_"

abbrev pub ref_class : String
ref_class = "abcdefghijklmnopqrstuvwxyz0123456789_-"

-- endpointRe: the dot is in neither class, so the first one parts the node from the port.
unfoldable pub endpoint_matches : String → Bool
endpoint_matches ep = elim (after_dot ep) [
  | none ↦ false
  | some port ↦
      not (before_dot ep == "")
      && all_of ref_class (before_dot ep)
      && not (port == "")
      && all_of port_class port
]

unfoldable pub check_node : List String → Node → Option GraphError
check_node refs n =
    if n.ref == "" || n.ref == client_ref
    then some (invalid_node_ref n.ref)
    else if contains refs n.ref
    then some (duplicate_node_ref n.ref)
    else if n.resolve == "" && n.use_id == ""
    then some (nothing_declared n.ref)
    else none

unfoldable pub check_nodes : List String → List Node → GraphError ⊎ List String
check_nodes refs [] = inr refs
check_nodes refs (n ∷ ns) = elim (check_node refs n) [
  | some e ↦ inl e
  | none ↦ check_nodes (n.ref ∷ refs) ns
]

unfoldable pub check_edge : List String → Edge → Option GraphError
check_edge refs e =
    if not (endpoint_matches e.from) || not (endpoint_matches e.to)
    then some (invalid_endpoint e.from e.to)
    else if not (contains refs (before_dot e.from))
    then some (unknown_node (before_dot e.from))
    else if not (contains refs (before_dot e.to))
    then some (unknown_node (before_dot e.to))
    else if not (e.gate == "") && not (e.gate == gate_human_approval) && not (e.gate == gate_none)
    then some (unknown_gate e.gate)
    else if is_negative e.deadline_ms
    then some (negative_deadline e.from e.to)
    else if e.speculative && e.gate == gate_human_approval
    then some (speculative_gate e.from e.to)
    else none

unfoldable pub check_edges : List String → List Edge → Option GraphError
check_edges refs [] = none
check_edges refs (e ∷ es) = elim (check_edge refs e) [
  | some err ↦ some err
  | none ↦ check_edges refs es
]

abbrev is_empty : {A : Type 0} → List A → Bool
is_empty [] = true
is_empty (x ∷ xs) = false

unfoldable pub check_head : Graph → Option GraphError
check_head g =
    if not (g.ir == ir_major)
    then some (unsupported_ir g.ir)
    else if g.graph_id == ""
    then some missing_graph_id
    else if not (g.origin_kind == "declared") && not (g.origin_kind == "planner")
    then some bad_origin
    else if is_empty g.nodes || is_empty g.edges
    then some nothing_to_run
    else none

unfoldable pub check_body : Graph → Option GraphError
check_body g = elim (check_nodes (client_ref ∷ []) g.nodes) [
  | inl e ↦ some e
  | inr refs ↦ elim (check_edges refs g.edges) [
    | some e ↦ some e
    | none ↦ if is_negative g.context_budget then some negative_budget else none
  ]
]

unfoldable pub parse_graph : Option Graph → GraphError ⊎ Graph
parse_graph none = inl invalid_json
parse_graph (some g) = elim (check_head g) [
  | some e ↦ inl e
  | none ↦ elim (check_body g) [ some e ↦ inl e | none ↦ inr g ]
]
