-- ===== src/Executor/Graph/Accepted.antt =====
-- What holds of each graph that `ParseGraph` accepts.
use deepaxiom_aura.Base.{
  ◌≡◌, ◌≢◌, ◌⊎◌, inl, inr, refl, ap, subst, String, true, false, ◌||◌, Option, none, some, List, [],
  ◌∷◌, ◌==◌, string_eq, arith, map, contains, Distinct, str_eq_iff, Option-cases, Sum-cases,
}
use deepaxiom_aura.Executor.Types.{client_ref, gate_human_approval, gate_none}
use deepaxiom_aura.Executor.Graph.{
  ir_major, Node, Edge, Graph, GraphError, is_negative, before_dot, endpoint_matches, check_node,
  check_nodes, check_edge, check_edges, check_head, check_body, parse_graph,
}

abbrev pub AllOf {ℓ} : {A : Type ℓ} → (A → Type 0) → List A → Type 0
AllOf P [] = Unit
AllOf P (x ∷ xs) = P x × AllOf P xs

abbrev pub NodeOk : Node → Type 0
NodeOk n = (n.ref ≢ "") × ((n.resolve ≢ "") ⊎ (n.use_id ≢ ""))

-- An end of an edge is the client or a node of the graph.
abbrev pub Known : List Node → String → Type 0
Known nodes ep =
    (endpoint_matches ep ≡ true)
    × ((before_dot ep ≡ client_ref) ⊎ (contains (map (λ n. n.ref) nodes) (before_dot ep) ≡ true))

abbrev pub EdgeOk : List Node → Edge → Type 0
EdgeOk nodes e =
    Known nodes e.from
    × Known nodes e.to
    × ((e.gate ≡ "") ⊎ (e.gate ≡ gate_human_approval) ⊎ (e.gate ≡ gate_none))
    × (is_negative e.deadline_ms ≡ false)
    × (e.speculative ≡ true → e.gate ≢ gate_human_approval)

pub record WellFormed (g : Graph) : Type 0 where
  pub nodes_ok : AllOf NodeOk g.nodes
  pub distinct : Distinct (client_ref ∷ map (λ n. n.ref) g.nodes)
  pub edges_ok : AllOf (EdgeOk g.nodes) g.edges
  pub budget_ok : is_negative g.context_budget ≡ false

abbrev refs_of : List Node → List String
refs_of nodes = map (λ n. n.ref) nodes

-- The refs gathered so far, and those of the nodes to come.
record Gathered (refs : List String) (nodes : List Node) (all : List String) : Type 0 where
  oks : AllOf NodeOk nodes
  once : Distinct (refs_of nodes)
  fresh : (r : String) → contains refs r ≡ true → contains (refs_of nodes) r ≡ false
  joined : (r : String) → contains all r ≡ (contains refs r || contains (refs_of nodes) r)

check_node_clear :
    (refs : List String) (n : Node)
    → check_node refs n ≡ none
    → NodeOk n × (contains refs n.ref ≡ false)
unfolding check_node
check_node_clear refs n h =
    ground (arith, h, str_eq_iff n.ref "", str_eq_iff n.resolve "", str_eq_iff n.use_id "")

abbrev gathered : GraphError ⊎ List String → List String
gathered (inl e) = []
gathered (inr refs) = refs

check_nodes-Gathered :
    (refs : List String) (nodes : List Node) (all : List String)
    → check_nodes refs nodes ≡ inr all
    → Gathered refs nodes all
unfolding check_nodes
check_nodes-Gathered refs [] all = λ h.
    subst (λ a. Gathered refs [] a) (ap gathered h)
      record { oks = tt; once = tt; fresh = λ r k. refl; joined = λ r. ground arith }
check_nodes-Gathered refs (n ∷ ns) all = elim (Option-cases (check_node refs n)) [
  | inr (e, failed) ↦ rw (check_nodes, failed) (λ h. absurd (ground (arith, h)))
  | inl passed ↦
      rw (check_nodes, passed)
        (λ h.
          let later = check_nodes-Gathered (n.ref ∷ refs) ns all h in
          let ok = check_node_clear refs n passed in
          record {
            oks = (ok.0, later.oks);
            once = (ground (arith, later.fresh n.ref, str_eq_iff n.ref n.ref), later.once);
            fresh = λ r k. ground (arith, k, ok.1, later.fresh r, str_eq_iff n.ref r);
            joined = λ r. ground (arith, later.joined r);
          })
]

check_edge_clear :
    (refs : List String) (nodes : List Node) (e : Edge)
    → ((r : String) → contains refs r ≡ ((client_ref == r || false) || contains (refs_of nodes) r))
    → check_edge refs e ≡ none
    → EdgeOk nodes e
unfolding check_edge
check_edge_clear refs nodes e known h = ground (
  arith,
  h,
  known (before_dot e.from),
  known (before_dot e.to),
  str_eq_iff client_ref (before_dot e.from),
  str_eq_iff client_ref (before_dot e.to),
  str_eq_iff e.gate "",
  str_eq_iff e.gate gate_human_approval,
  str_eq_iff e.gate gate_none,
)

check_edges_clear :
    (refs : List String) (nodes : List Node) (edges : List Edge)
    → ((r : String) → contains refs r ≡ ((client_ref == r || false) || contains (refs_of nodes) r))
    → check_edges refs edges ≡ none
    → AllOf (EdgeOk nodes) edges
unfolding check_edges
check_edges_clear refs nodes [] known = λ h. tt
check_edges_clear refs nodes (e ∷ es) known = elim (Option-cases (check_edge refs e)) [
  | inr (err, failed) ↦ rw (check_edges, failed) (λ h. absurd (ground (arith, h)))
  | inl passed ↦
      rw (check_edges, passed)
        (λ h. (check_edge_clear refs nodes e known passed, check_edges_clear refs nodes es known h))
]

check_body-WellFormed : (g : Graph) → check_body g ≡ none → WellFormed g
unfolding check_body
check_body-WellFormed g = elim (Sum-cases (check_nodes (client_ref ∷ []) g.nodes)) [
  | inl (e, failed) ↦ rw (check_body, failed) (λ h. absurd (ground (arith, h)))
  | inr (refs, passed) ↦ elim (Option-cases (check_edges refs g.edges)) [
    | inr (e, failed) ↦ rw (check_body, passed, failed) (λ h. absurd (ground (arith, h)))
    | inl sound ↦
        rw (check_body, passed, sound)
          (λ h.
            let nodes = check_nodes-Gathered (client_ref ∷ []) g.nodes refs passed in
            record {
              nodes_ok = nodes.oks;
              distinct = (
                ground (arith, nodes.fresh client_ref, str_eq_iff client_ref client_ref),
                nodes.once,
              );
              edges_ok = check_edges_clear refs g.nodes g.edges nodes.joined sound;
              budget_ok = ground (arith, h);
            })
  ]
]

abbrev parsed : Graph → GraphError ⊎ Graph → Graph
parsed g (inl e) = g
parsed g (inr read) = read

check_head_clear : (g : Graph) → check_head g ≡ none → (g.ir ≡ ir_major) × (g.graph_id ≢ "")
unfolding check_head
check_head_clear g h = ground (arith, h, str_eq_iff g.ir ir_major, str_eq_iff g.graph_id "")

-- A graph that ParseGraph returns is the decoded document, of the format that the executor speaks
-- and with an id, whose nodes have different refs that are not the client's nor empty and say what
-- they resolve to, whose edges join the client and those nodes by well-formed endpoints with a known
-- gate, no negative deadline and never both speculation and a human's approval, and whose context
-- budget is not negative.
pub parse_graph-WellFormed :
    (raw : Option Graph) (g : Graph)
    → parse_graph raw ≡ inr g
    → (raw ≡ some g) × (g.ir ≡ ir_major) × (g.graph_id ≢ "") × WellFormed g
unfolding parse_graph
parse_graph-WellFormed none g = λ h. absurd (ground (arith, h))
parse_graph-WellFormed (some g') g = elim (Option-cases (check_head g')) [
  | inr (e, failed) ↦ rw (parse_graph, failed) (λ h. absurd (ground (arith, h)))
  | inl head ↦ elim (Option-cases (check_body g')) [
    | inr (e, failed) ↦ rw (parse_graph, head, failed) (λ h. absurd (ground (arith, h)))
    | inl body ↦
        rw (parse_graph, head, body)
          (λ h.
            let head_ok = check_head_clear g' head in
            subst (λ x. (some g' ≡ some x) × (x.ir ≡ ir_major) × (x.graph_id ≢ "") × WellFormed x)
              (ap (parsed g') h) (refl, head_ok.0, head_ok.1, check_body-WellFormed g' body))
  ]
]
