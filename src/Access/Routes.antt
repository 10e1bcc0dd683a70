-- ===== src/Access/Routes.antt =====
-- Which routes a skill's token reaches, and which need no token.
use deepaxiom_aura.Base.{
  ◌+++◌, ◌==◌, inr, Bool-cases, Option-cases, ◌&&◌, ◌||◌, has_prefix_iff, [], ◌∷◌, not, ap, sym,
  ◌∙◌, map, is_some, has_suffix, before_mark, after_mark, ◌≡◌, ◌≢◌, ◌⊎◌, ◌↔◌, inl, refl, String,
  Bool, true, false, none, List, string_eq, nat_eq, arith, contains, str_eq, str_eq_iff, has_prefix,
}
use text.Mathlib.TextLemmas.{append_assoc}
use deepaxiom_aura.Access.Mux.{patterns, route_path, handler_auth, ServeMux}
use deepaxiom_aura.Access.{
  Principal, scope_operator, scope_skill, is_operator, route_allows, allows, Library, Auth, Request,
  public_witness_log_path, is_ui_asset, open_path, unauthorized, presented_token, resolve,
  authenticate,
}

-- What a skill's token is for.
abbrev pub Reached : String → String → Type 0
Reached method path =
    (method ≡ "GET") × (path ≡ "/ws/skill")
    ⊎ (method ≡ "POST") × (path ≡ "/v1/secrets/resolve")
    ⊎ (method ≡ "GET") × (path ≡ "/healthz")
    ⊎ (method ≡ "GET") × (has_prefix path "/v1/skills/config/" ≡ true)

pub skill_not_operator : str_eq scope_skill scope_operator ≡ false
unfolding str_eq
skill_not_operator = refl

-- Each route of the table names a method.
methods_named : (str_eq "GET" "" ≡ false) × (str_eq "POST" "" ≡ false)
unfolding str_eq
methods_named = (refl, refl)

-- a
pub skill_allowed_iff :
    (p : Principal) (method path : String)
    → p.scope ≡ scope_skill
    → (allows p method path ≡ true) ↔ Reached method path
unfolding allows is_operator route_allows
skill_allowed_iff p method path skill = rw skill (
    ground (
      arith,
      skill_not_operator,
      methods_named,
      str_eq_iff scope_skill scope_skill,
      str_eq_iff "GET" method,
      str_eq_iff "POST" method,
      str_eq_iff path "/ws/skill",
      str_eq_iff path "/v1/secrets/resolve",
      str_eq_iff path "/healthz",
    ))

-- The routes that need no token, besides the app's own.
abbrev pub IsPublic : String → Bool → Type 0
IsPublic path open_witness =
    (path ≡ "/healthz")
    ⊎ (path ≡ "/readyz")
    ⊎ (has_prefix path "/hooks/" ≡ true)
    ⊎ (open_witness ≡ true)
      × ((path ≡ "/v1/ledger/witness")
          ⊎ (path ≡ "/v1/ledger/witness/last-seen")
          ⊎ (public_witness_log_path path ≡ true))

-- The path of a pattern that is closed by what it looks like: it is registered as it stands, or its
-- literal part is under a prefix that the app's assets never have.
unfoldable covered : String → Bool
covered path =
    not (is_some (after_mark "{" path)) && not (has_suffix path "/")
    || has_prefix (before_mark "{" path) "/v1/"
    || has_prefix (before_mark "{" path) "/hooks/"

unfoldable all_covered : List String → Bool
all_covered [] = true
all_covered (p ∷ ps) = (p == "GET /" || covered (route_path p)) && all_covered ps

patterns_covered : (mcp : Bool) → all_covered (patterns mcp) ≡ true
unfolding all_covered covered route_path patterns before_mark after_mark has_prefix has_suffix
    str_eq
patterns_covered true = refl
patterns_covered false = refl

covered_one :
    (ps : List String) (p : String)
    → all_covered ps ≡ true
    → contains ps p ≡ true
    → p ≢ "GET /"
    → covered (route_path p) ≡ true
unfolding all_covered
covered_one [] p all there n = absurd (ground (arith, there))
covered_one (q ∷ ps) p all there n =
    ground (arith, all, there, n, covered_one ps p, str_eq_iff q p, str_eq_iff q "GET /")

contains-map :
    (f : String → String) (ps : List String) (p : String)
    → contains ps p ≡ true
    → contains (map f ps) (f p) ≡ true
contains-map f [] p h = absurd (ground (arith, h))
contains-map f (q ∷ ps) p h =
    ground (arith, h, contains-map f ps p, str_eq_iff q p, str_eq_iff (f q) (f p))

has_prefix_trans :
    (s t p : String) → has_prefix s t ≡ true → has_prefix t p ≡ true → has_prefix s p ≡ true
has_prefix_trans s t p h k =
    let (u, e) = (has_prefix_iff s t).0 h in
    let (v, d) = (has_prefix_iff t p).0 k in
    (has_prefix_iff s p).1 (v +++ u, sym (append_assoc p v u) ∙ ap (λ x. x +++ u) d ∙ e)

slash_alone :
    (has_prefix "/" "/v1/" ≡ false)
    × (has_prefix "/" "/hooks/" ≡ false)
    × (has_suffix "/" "/" ≡ true)
unfolding has_prefix has_suffix str_eq
slash_alone = (refl, refl, refl)

-- A request that a registered pattern serves is for no asset.
route_not_asset :
    (mux : ServeMux) (mcp : Bool) (pattern path : String)
    → contains (patterns mcp) pattern ≡ true
    → pattern ≢ "GET /"
    → mux.serves (route_path pattern) path ≡ true
    → is_ui_asset path (map route_path (patterns mcp)) ≡ false
unfolding covered is_ui_asset
route_not_asset mux mcp pattern path there n serves =
    let cover = covered_one (patterns mcp) pattern (patterns_covered mcp) there n in
    let listed = contains-map route_path (patterns mcp) pattern there in
    let literal = mux.literal (route_path pattern) path serves in
    let head = before_mark "{" (route_path pattern) in
    elim (Bool-cases (has_prefix head "/v1/")) [
      | inl api ↦
          let under = has_prefix_trans path head "/v1/" literal api in
          ground (arith, under, slash_alone, str_eq_iff path "/")
      | inr other ↦ elim (Bool-cases (has_prefix head "/hooks/")) [
        | inl hook ↦
            let under = has_prefix_trans path head "/hooks/" literal hook in
            ground (arith, under, slash_alone, str_eq_iff path "/")
        | inr neither ↦ elim (Option-cases (after_mark "{" (route_path pattern))) [
          | inr (rest, wild) ↦ absurd (ground (arith, cover, other, neither, wild))
          | inl plain ↦
              let whole : has_suffix (route_path pattern) "/" ≡ false =
                ground (arith, cover, other, neither) in
              let same = mux.exact (route_path pattern) path serves plain whole in
              ground (arith, same, listed, whole, slash_alone, str_eq_iff path "/")
        ]
      ]
    ]

route_not_open :
    (mux : ServeMux) (mcp : Bool) (pattern path : String) (open_witness : Bool)
    → contains (patterns mcp) pattern ≡ true
    → pattern ≢ "GET /"
    → mux.serves (route_path pattern) path ≡ true
    → ¬ IsPublic path open_witness
    → open_path path open_witness (map route_path (patterns mcp)) ≡ false
unfolding open_path
route_not_open mux mcp pattern path open_witness there n serves private = ground (
  arith,
  route_not_asset mux mcp pattern path there n serves,
  private,
  str_eq_iff path "/healthz",
  str_eq_iff path "/readyz",
  str_eq_iff path "/v1/ledger/witness",
  str_eq_iff path "/v1/ledger/witness/last-seen",
)

-- On a node that has a token, with the routes that the handler registers, a request without a token
-- is refused as unauthorized on every path that one of those patterns other than the app's own `GET
-- /` serves, with its wildcards, unless the path is a health probe, under /hooks/, or on an open
-- witness one of its public paths. The mux is a parameter: up to its first wildcard a pattern's path
-- is literal, and without a wildcard or a last slash it serves only itself.
pub route_closed :
    (go : Library) (mux : ServeMux) (a : Auth) (mcp : Bool) (pattern : String) (r : Request)
    → a.token ≢ ""
    → contains (patterns mcp) pattern ≡ true
    → pattern ≢ "GET /"
    → mux.serves (route_path pattern) r.path ≡ true
    → ¬ IsPublic r.path a.open_witness
    → presented_token go r ≡ none
    → authenticate go (handler_auth a mcp) r ≡ unauthorized
unfolding authenticate resolve handler_auth
route_closed go mux a mcp pattern r t there n serves private no_token =
    rw
      (
        authenticate,
        route_not_open mux mcp pattern r.path a.open_witness there n serves private,
        resolve,
        no_token,
      )
      (ground (arith, t, str_eq_iff a.token ""))
