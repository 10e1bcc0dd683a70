-- ===== src/Access/Tests.antt =====
-- A node with one skill's token, and the requests that it makes.
use deepaxiom_aura.Base.{
  before_mark, after_mark, has_suffix, is_some, str_eq_iff, ◌&&◌, ◌||◌, Bool, ◌≡◌, ◌≢◌, ◌⊎◌, refl,
  String, true, false, Option, none, some, [], ◌∷◌, ◌==◌, string_eq, nat_eq, if◌then◌else◌, str_eq,
  str_ne, contains, has_prefix, past, first_of, arith,
}
use deepaxiom_aura.Access.{
  Principal, scope_operator, scope_skill, valid_scope, is_operator, may_register, route_allows,
  allows, TokenRow, Library, Auth, Request, is_web_socket_path, public_witness_log_path,
  is_ui_asset, open_path, served, unauthorized, forbidden, hash_token, bearer, presented_token,
  constant_time_match, principal_of_row, resolve, authenticate, authenticate_wire,
}
use deepaxiom_aura.Access.Mux.{patterns, route_path, handler_auth, ServeMux}
use deepaxiom_aura.Access.Routes.{Reached, IsPublic, route_closed}
use deepaxiom_aura.Access.Earned.{Earned, served-Earned, registers_as_issued}

abbrev small_go : Library
small_go = record { sha256_hex = λ t. t; trim_space = λ t. t; equal_fold = λ s t. s == t }

abbrev erp_row : TokenRow
erp_row = record {
  id = "t1";
  scope = "skill";
  capability = "motor.erp.read";
  label = "erp";
  revoked = 0;
}

abbrev issued : String → Option TokenRow
issued h = if h == "sha256:skill-token" then some erp_row else none

abbrev node_auth : Auth
node_auth = record {
  token = "node-token";
  tokens = some issued;
  allowed_origins = [];
  trusted_proxy = false;
  api_routes = "/metrics" ∷ "/v1/secrets/resolve" ∷ [];
  open_witness = false;
}

abbrev asks : String → String → String → Request
asks method path header = record {
  method = method;
  path = path;
  authorization = header;
  query_token = "";
  host = "localhost";
  origin = "";
  origin_host = "";
}

abbrev erp : Principal
erp = record { scope = "skill"; token_id = "t1"; capability = "motor.erp.read"; label = "erp" }

abbrev spend : Request
spend = asks "POST" "/v1/secrets/resolve" "bearer skill-token"

abbrev spend_it : Request
spend_it = asks "POST" "/v1/secrets/resolve" "Bearer skill-token"

abbrev connect : Request
connect = asks "GET" "/ws/skill" "Bearer skill-token"

-- The fold of this library tells the cases apart, so the header in lower case presents nothing.
wrong_case : presented_token small_go spend ≡ none
unfolding presented_token bearer str_eq first_of past
wrong_case = refl

spend_served : authenticate small_go node_auth spend_it ≡ served erp
unfolding authenticate resolve presented_token bearer str_eq first_of past open_path is_ui_asset
    has_prefix constant_time_match hash_token principal_of_row valid_scope allows is_operator
    route_allows public_witness_log_path
spend_served = refl

scrape_refused :
    authenticate small_go node_auth (asks "GET" "/metrics" "Bearer skill-token") ≡ forbidden
unfolding authenticate resolve presented_token bearer str_eq first_of past open_path is_ui_asset
    has_prefix constant_time_match hash_token principal_of_row valid_scope allows is_operator
    route_allows public_witness_log_path
scrape_refused = refl

spend_closed : open_path spend_it.path node_auth.open_witness node_auth.api_routes ≡ false
unfolding open_path is_ui_asset str_eq has_prefix public_witness_log_path
spend_closed = refl

node_named : ◌≢◌ {A = String} node_auth.token ""
unfolding str_eq
node_named = str_ne "node-token" "" refl

served-Earned_example :
    Earned small_go node_auth spend_it erp
    × ((erp.scope ≡ scope_operator)
        ⊎ (erp.scope ≡ scope_skill) × Reached spend_it.method spend_it.path)
served-Earned_example =
    served-Earned small_go node_auth spend_it erp node_named spend_closed spend_served

wire : authenticate_wire small_go (some node_auth) connect ≡ (erp, true)
unfolding authenticate_wire resolve presented_token bearer str_eq first_of past constant_time_match
    hash_token principal_of_row valid_scope allows is_operator route_allows has_prefix
wire = refl

may : may_register erp "motor.erp.read" ≡ true
unfolding may_register is_operator str_eq
may = refl

registers_as_issued_example :
    Earned small_go node_auth connect erp
    × ((erp.scope ≡ scope_operator)
        ⊎ (erp.scope ≡ scope_skill)
          × (erp.capability ≡ "motor.erp.read")
          × (◌≢◌ {A = String} "motor.erp.read" ""))
registers_as_issued_example =
    registers_as_issued small_go node_auth connect erp "motor.erp.read" node_named wire may

-- A small mux: a pattern with a wildcard serves what its literal part begins.
abbrev small_serves : String → String → Bool
small_serves pattern path =
    has_prefix path (before_mark "{" pattern)
    && (is_some (after_mark "{" pattern) || path == pattern)

small_literal :
    (pattern path : String)
    → small_serves pattern path ≡ true
    → has_prefix path (before_mark "{" pattern) ≡ true
small_literal pattern path h = ground (arith, h)

small_exact :
    (pattern path : String)
    → small_serves pattern path ≡ true
    → after_mark "{" pattern ≡ none
    → has_suffix pattern "/" ≡ false
    → path ≡ pattern
small_exact pattern path h plain whole = ground (arith, h, plain, str_eq_iff path pattern)

abbrev small_mux : ServeMux
small_mux = record { serves = small_serves; literal = small_literal; exact = small_exact }

abbrev drop_secret : Request
drop_secret = asks "DELETE" "/v1/secrets/stripe" ""

drop_registered : contains (patterns false) "DELETE /v1/secrets/{name}" ≡ true
unfolding patterns str_eq
drop_registered = refl

drop_served : small_serves (route_path "DELETE /v1/secrets/{name}") drop_secret.path ≡ true
unfolding route_path before_mark after_mark has_prefix str_eq
drop_served = refl

not_the_app : ◌≢◌ {A = String} "DELETE /v1/secrets/{name}" "GET /"
unfolding str_eq
not_the_app = str_ne "DELETE /v1/secrets/{name}" "GET /" refl

drop_private : ¬ IsPublic "/v1/secrets/stripe" false
unfolding has_prefix str_eq
drop_private = λ public. ground (
  arith,
  public,
  str_ne "/v1/secrets/stripe" "/healthz" refl,
  str_ne "/v1/secrets/stripe" "/readyz" refl,
)

no_token : presented_token small_go drop_secret ≡ none
unfolding presented_token str_eq is_web_socket_path
no_token = refl

route_closed_example :
    authenticate small_go (handler_auth node_auth false) drop_secret ≡ unauthorized
route_closed_example =
    route_closed small_go small_mux node_auth false "DELETE /v1/secrets/{name}" drop_secret
      node_named drop_registered not_the_app drop_served drop_private no_token
