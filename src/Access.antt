-- ===== src/Access.antt =====
-- Who a caller of the gateway is, and what that lets it do (kernel/internal/gateway/auth.go and
-- kernel/internal/gateway/scope.go). The store of issued tokens, SHA-256 and the comparisons of Go's
-- library are parameters; a header that is absent is the empty text, as `Header.Get` has it.
pub mod Mux
pub mod Routes
pub mod Earned
mod Tests
use deepaxiom_aura.Base.{
  ℕ, String, Bool, true, false, not, ◌&&◌, ◌||◌, Option, none, some, ◌⊎◌, inl, inr, List, [], ◌∷◌,
  ◌==◌, string_eq, nat_eq, if◌then◌else◌, has_prefix, contains_text, past, first_of, contains,
  ◌+++◌,
}

abbrev pub scope_operator : String
scope_operator = "operator"

abbrev pub scope_skill : String
scope_skill = "skill"

unfoldable pub valid_scope : String → Bool
valid_scope s = s == scope_operator || s == scope_skill

pub record Principal : Type 0 where
  pub scope : String
  pub token_id : String
  pub capability : String
  pub label : String

-- The zero value: nobody.
abbrev pub nobody : Principal
nobody = record { scope = ""; token_id = ""; capability = ""; label = "" }

abbrev pub the_operator : Principal
the_operator = record { scope = scope_operator; token_id = ""; capability = ""; label = "" }

unfoldable pub is_operator : Principal → Bool
is_operator p = p.scope == scope_operator

unfoldable pub may_register : Principal → String → Bool
may_register p capability =
    if is_operator p
    then true
    else p.scope == scope_skill && not (p.capability == "") && p.capability == capability

pub record SkillRoute : Type 0 where
  pub method : String
  pub path : String
  pub prefix : Bool

abbrev pub skill_routes : List SkillRoute
skill_routes =
    record { method = "GET"; path = "/ws/skill"; prefix = false }
    ∷ record { method = "POST"; path = "/v1/secrets/resolve"; prefix = false }
    ∷ record { method = "GET"; path = "/healthz"; prefix = false }
    ∷ record { method = "GET"; path = "/v1/skills/config/"; prefix = true }
    ∷ []

-- The loop over the routes, the first match wins.
unfoldable pub route_allows : List SkillRoute → String → String → Bool
route_allows [] method path = false
route_allows (r ∷ routes) method path =
    let later = route_allows routes method path in
    if not (r.method == "") && not (r.method == method)
    then later
    else if r.prefix
    then if has_prefix path r.path then true else later
    else if path == r.path
    then true
    else later

unfoldable pub allows : Principal → String → String → Bool
allows p method path =
    if is_operator p
    then true
    else if not (p.scope == scope_skill)
    then false
    else route_allows skill_routes method path

-- A row of the issued tokens; `revoked` is when it was, or 0.
pub record TokenRow : Type 0 where
  pub id : String
  pub scope : String
  pub capability : String
  pub label : String
  pub revoked : ℕ

-- Go's library: SHA-256 in hexadecimal, TrimSpace and EqualFold.
pub record Library : Type 0 where
  pub sha256_hex : String → String
  pub trim_space : String → String
  pub equal_fold : String → String → Bool

-- `tokens`: TokenByHash, which gives no row where it fails or finds none; `none` is a node without it.
pub record Auth : Type 0 where
  pub token : String
  pub tokens : Option (String → Option TokenRow)
  pub allowed_origins : List String
  pub trusted_proxy : Bool
  pub api_routes : List String
  pub open_witness : Bool

-- `origin_host` is the host of the origin where it is a URL, and empty where it is none.
pub record Request : Type 0 where
  pub method : String
  pub path : String
  pub authorization : String
  pub query_token : String
  pub host : String
  pub origin : String
  pub origin_host : String

unfoldable pub is_web_socket_path : String → Bool
is_web_socket_path p = p == "/ws/skill" || p == "/v1/stream"

unfoldable pub public_witness_log_path : String → Bool
public_witness_log_path p =
    if p == "/v1/witness/head" || p == "/v1/witness/log" || p == "/v1/witness/consistency"
    then true
    else has_prefix p "/v1/witness/proof/"

-- strings.TrimPrefix(p, "/")
unfoldable pub without_slash : String → String
without_slash p = if has_prefix p "/" then elim (past 1 p) [ none ↦ "" | some s ↦ s ] else p

unfoldable pub is_ui_asset : String → List String → Bool
is_ui_asset p api_routes =
    if p == "/"
    then true
    else if has_prefix p "/v1/"
        || has_prefix p "/ws/"
        || p == "/mcp"
        || p == "/.well-known/agent.json"
        || has_prefix p "/openenv/"
        || has_prefix p "/hooks/"
    then false
    else if contains api_routes p
    then false
    else not (without_slash p == "") && not (contains_text (without_slash p) "..")

unfoldable pub open_path : String → Bool → List String → Bool
open_path p open_witness api_routes =
    p == "/healthz"
    || p == "/readyz"
    || has_prefix p "/hooks/"
    || is_ui_asset p api_routes
    || open_witness && p == "/v1/ledger/witness"
    || open_witness && p == "/v1/ledger/witness/last-seen"
    || open_witness && public_witness_log_path p

pub data Served : Type 0 where
  served : Principal → Served
  unauthorized : Served
  forbidden : Served

unfoldable pub constant_time_match : Auth → String → Bool
constant_time_match a got = got == a.token

-- The principal of a row that is live and of a scope that this kernel issues.
unfoldable pub principal_of_row : TokenRow → Option Principal
principal_of_row row =
    if not (row.revoked == 0)
    then none
    else if not (valid_scope row.scope)
    then none
    else some record {
      scope = row.scope;
      token_id = row.id;
      capability = row.capability;
      label = row.label;
    }

-- The zero principal where nobody could be identified.
unfoldable pub or_nobody : Option Principal → Principal
or_nobody none = nobody
or_nobody (some p) = p

module _ (go : Library) where
  unfoldable pub hash_token : String → String
  hash_token token = "sha256:" +++ go.sha256_hex (go.trim_space token)

  -- The token after "Bearer ", where the header has one.
  unfoldable pub bearer : String → Option String
  bearer h = if go.equal_fold (first_of 7 h) "Bearer " then past 7 h else none

  unfoldable pub presented_token : Request → Option String
  presented_token r =
      if not (r.authorization == "")
      then bearer r.authorization
      else if is_web_socket_path r.path && not (r.query_token == "")
      then some r.query_token
      else none

  unfoldable pub resolve : Auth → Request → Option Principal
  resolve a r = elim (presented_token r) [
    | none ↦ none
    | some token ↦ if constant_time_match a token then some the_operator else elim a.tokens [
      | none ↦ none
      | some token_by_hash ↦ elim (token_by_hash (hash_token token)) [
        | none ↦ none
        | some row ↦ principal_of_row row
      ]
    ]
  ]

  unfoldable pub authenticate : Auth → Request → Served
  authenticate a r =
      if a.token == ""
      then served the_operator
      else if open_path r.path a.open_witness a.api_routes
      then served (or_nobody (resolve a r))
      else elim (resolve a r) [
        | none ↦ unauthorized
        | some p ↦ if allows p r.method r.path then served p else forbidden
      ]

  -- Connections that come past the middleware; `none` is a gateway without authentication.
  unfoldable pub authenticate_wire : Option Auth → Request → Principal × Bool
  authenticate_wire none r = (the_operator, true)
  authenticate_wire (some a) r =
      if a.token == ""
      then (the_operator, true)
      else elim (resolve a r) [ none ↦ (nobody, false) | some p ↦ (p, allows p "GET" "/ws/skill") ]

  -- The allowlist of origins, in its order.
  unfoldable pub listed_origin : List String → String → Bool
  listed_origin [] origin = false
  listed_origin (allowed ∷ rest) origin =
      let later = listed_origin rest origin in
      if go.equal_fold (go.trim_space allowed) origin then true else later

  unfoldable pub check_origin : Auth → Request → Bool
  check_origin a r =
      if r.origin == ""
      then true
      else if r.origin_host == ""
      then false
      else if listed_origin a.allowed_origins r.origin
      then true
      else if go.equal_fold r.origin_host r.host
      then true
      else a.trusted_proxy
