-- ===== src/Access/Mux.antt =====
-- The routes of the gateway (`Handler` of kernel/internal/gateway/gateway.go): the patterns that it registers,
-- and the paths that the authentication takes from them.
use deepaxiom_aura.Base.{
  String, Bool, true, false, none, some, List, [], ◌∷◌, ◌++◌, map, ◌≡◌, has_prefix, has_suffix,
  before_mark, after_mark, if◌then◌else◌,
}
use deepaxiom_aura.Access.{Auth}

-- Registered where the node has an MCP server.
abbrev pub mcp_patterns : List String
mcp_patterns = "POST /mcp" ∷ "GET /mcp" ∷ []

-- The other patterns, in two parts: MCP's stand between them.
abbrev pub first_patterns : List String
first_patterns =
    "GET /" ∷ "GET /.well-known/agent.json" ∷ "GET /openenv/spec" ∷ "POST /openenv/reset"
    ∷ "POST /openenv/step" ∷ "GET /openenv/state" ∷ "GET /openenv/bundle" ∷ []

abbrev pub later_patterns : List String
later_patterns =
    "GET /healthz" ∷ "GET /readyz" ∷ "GET /metrics" ∷ "GET /v1/approvals"
    ∷ "POST /v1/approvals/{id}" ∷ "GET /v1/operators" ∷ "POST /v1/operators"
    ∷ "DELETE /v1/operators/{id}" ∷ "GET /v1/secrets" ∷ "PUT /v1/secrets"
    ∷ "DELETE /v1/secrets/{name}" ∷ "POST /v1/secrets/resolve" ∷ "GET /v1/skills"
    ∷ "GET /v1/skills/config" ∷ "PUT /v1/skills/config" ∷ "GET /v1/graphs" ∷ "GET /v1/graphs/{id}"
    ∷ "GET /v1/graphs/{id}/revisions" ∷ "GET /v1/graphs/{id}/revisions/{n}" ∷ "POST /v1/graphs"
    ∷ "GET /v1/sessions" ∷ "GET /v1/sessions/{id}" ∷ "GET /v1/sessions/{id}/events"
    ∷ "GET /v1/sessions/{id}/ledger" ∷ "GET /v1/sessions/{id}/bundle" ∷ "POST /v1/projections"
    ∷ "GET /v1/projections" ∷ "POST /v1/projections/{name}/promote" ∷ "POST /v1/ingress"
    ∷ "GET /v1/ingress" ∷ "DELETE /v1/ingress/{name}" ∷ "GET /v1/schemas"
    ∷ "GET /v1/grammars/{ref...}" ∷ "GET /v1/schemas/{ref...}" ∷ "GET /v1/ledger"
    ∷ "GET /v1/ledger/verify" ∷ "GET /v1/ledger/entries/{hash}" ∷ "GET /v1/ledger/head"
    ∷ "GET /v1/ledger/statement" ∷ "POST /v1/ledger/witness" ∷ "GET /v1/ledger/witness/last-seen"
    ∷ "POST /v1/ledger/witness/record" ∷ "GET /v1/witness/head" ∷ "GET /v1/witness/log"
    ∷ "GET /v1/witness/consistency" ∷ "GET /v1/witness/proof/{seq}" ∷ "GET /v1/witness/seen"
    ∷ "POST /v1/witness/seen" ∷ "GET /v1/ledger/receipt/{hash}"
    ∷ "GET /v1/ledger/attestations/{hash}" ∷ "POST /v1/skills/wasm" ∷ "POST /hooks/{name}"
    ∷ "GET /ws/skill" ∷ "GET /v1/stream" ∷ []

unfoldable pub patterns : Bool → List String
patterns mcp = first_patterns ++ (if mcp then mcp_patterns else []) ++ later_patterns

-- The path of "METHOD /path": strings.Cut at the blank, or the pattern.
unfoldable pub route_path : String → String
route_path pattern = elim (after_mark " " pattern) [ none ↦ pattern | some rest ↦ rest ]

-- auth.APIRoutes = routes
unfoldable pub handler_auth : Auth → Bool → Auth
handler_auth a mcp = record a { api_routes = map route_path (patterns mcp) }

-- net/http's ServeMux: whether the path of a pattern serves the path of a request. Up to its first
-- wildcard a pattern's path is literal, and without one, and without a last slash, it serves only
-- itself.
pub record ServeMux : Type 0 where
  pub serves : String → String → Bool
  pub literal :
      (pattern path : String)
      → serves pattern path ≡ true
      → has_prefix path (before_mark "{" pattern) ≡ true
  pub exact :
      (pattern path : String)
      → serves pattern path ≡ true
      → after_mark "{" pattern ≡ none
      → has_suffix pattern "/" ≡ false
      → path ≡ pattern
