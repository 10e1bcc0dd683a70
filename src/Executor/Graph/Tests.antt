-- ===== src/Executor/Graph/Tests.antt =====
-- A graph of one skill between the client and itself, and what is wrong with its variants.
use deepaxiom_aura.Base.{
  all_of, before_mark, after_mark, ◌≡◌, ◌≢◌, refl, String, true, false, some, inl, inr, [], ◌∷◌,
  string_eq, contains_text, has_prefix, str_eq,
}
use deepaxiom_aura.Base.Int.{pos}
use deepaxiom_aura.Executor.Graph.{
  ir_major, Node, Edge, Graph, duplicate_node_ref, unknown_node, speculative_gate, before_dot,
  after_dot, endpoint_matches, check_node, check_nodes, check_edge, check_edges, check_head,
  check_body, parse_graph,
}
use deepaxiom_aura.Executor.Graph.Accepted.{WellFormed, parse_graph-WellFormed}

abbrev llm : Node
llm = record { ref = "llm"; resolve = "reason.chat"; use_id = "" }

abbrev link : String → String → Edge
link from to = record {
  from = from;
  to = to;
  gate = "";
  qos = "";
  speculative = false;
  deadline_ms = pos 0;
  priority = pos 0;
}

abbrev chat : Graph
chat = record {
  ir = "1";
  graph_id = "chat";
  origin_kind = "declared";
  nodes = llm ∷ [];
  edges = link "client.text" "llm.prompt" ∷ link "llm.reply" "client.text" ∷ [];
  context_budget = pos 0;
}

chat_parses : parse_graph (some chat) ≡ inr chat
unfolding parse_graph check_head check_body check_nodes check_node check_edges check_edge
    endpoint_matches before_dot after_dot before_mark after_mark all_of contains_text has_prefix
    str_eq
chat_parses = refl

twice_refused :
    parse_graph (some (record chat { nodes = llm ∷ llm ∷ [] })) ≡ inl (duplicate_node_ref "llm")
unfolding parse_graph check_head check_body check_nodes check_node str_eq
twice_refused = refl

stray_refused :
    parse_graph (some (record chat { edges = link "client.text" "tts.text" ∷ [] }))
    ≡ inl (unknown_node "tts")
unfolding parse_graph check_head check_body check_nodes check_node check_edges check_edge
    endpoint_matches before_dot after_dot before_mark after_mark all_of contains_text has_prefix
    str_eq
stray_refused = refl

both_refused :
    parse_graph (
      some (record chat {
        edges =
            record (link "client.text" "llm.prompt") { gate = "human-approval"; speculative = true }
            ∷ [];
      }))
    ≡ inl (speculative_gate "client.text" "llm.prompt")
unfolding parse_graph check_head check_body check_nodes check_node check_edges check_edge
    endpoint_matches before_dot after_dot before_mark after_mark all_of contains_text has_prefix
    str_eq
both_refused = refl

parse_graph-WellFormed_example :
    (some chat ≡ some chat)
    × (chat.ir ≡ ir_major)
    × (◌≢◌ {A = String} chat.graph_id "")
    × WellFormed chat
parse_graph-WellFormed_example = parse_graph-WellFormed (some chat) chat chat_parses
