-- ===== src/Access/Earned.antt =====
-- Whom the gateway serves: who presented the operator's token, or a live one that was issued, and no
-- further than its scope.
use deepaxiom_aura.Base.{
  ◌≡◌, ◌≢◌, ◌⊎◌, inl, inr, refl, sym, ap, subst, ◌∙◌, String, true, false, Option, some, ◌==◌,
  string_eq, nat_eq, arith, str_eq, str_eq_iff, Bool-cases, Option-cases, nat_beq_iff,
}
use mathlib.Core.Option.{some-injective}
use deepaxiom_aura.Access.{
  Principal, the_operator, nobody, scope_operator, scope_skill, valid_scope, is_operator,
  may_register, allows, Library, Auth, TokenRow, Request, open_path, Served, served, unauthorized,
  forbidden, hash_token, presented_token, constant_time_match, principal_of_row, resolve,
  authenticate, authenticate_wire,
}
use deepaxiom_aura.Access.Routes.{Reached, skill_allowed_iff}

abbrev who : Served → Principal
who (served p) = p
who unauthorized = nobody
who forbidden = nobody

module _ (go : Library) (a : Auth) (r : Request) where
  -- The token that the request presents makes its caller this principal.
  pub data Earned : Principal → Type 0 where
    holds_the_token : presented_token go r ≡ some a.token → Earned the_operator
    holds_a_row :
        (token : String) (find : String → Option TokenRow) (row : TokenRow)
        → presented_token go r ≡ some token
        → a.tokens ≡ some find
        → find (hash_token go token) ≡ some row
        → row.revoked ≡ 0
        → (row.scope ≡ scope_operator) ⊎ (row.scope ≡ scope_skill)
        → Earned record {
          scope = row.scope;
          token_id = row.id;
          capability = row.capability;
          label = row.label;
        }

  named : a.token ≢ "" → str_eq a.token "" ≡ false
  named t = ground (arith, t, str_eq_iff a.token "")

  row-Earned :
      (token : String) (find : String → Option TokenRow) (row : TokenRow) (p : Principal)
      → presented_token go r ≡ some token
      → a.tokens ≡ some find
      → find (hash_token go token) ≡ some row
      → principal_of_row row ≡ some p
      → Earned p
  unfolding principal_of_row valid_scope
  row-Earned token find row p shown kept found = elim (Bool-cases (row.revoked == 0)) [
    | inr e ↦ rw (principal_of_row, e) (λ h. absurd (ground (arith, h)))
    | inl e ↦ elim (Bool-cases (valid_scope row.scope)) [
      | inr bad ↦ rw (principal_of_row, e, bad) (λ h. absurd (ground (arith, h)))
      | inl good ↦
          rw (principal_of_row, e, good)
            (λ h. subst Earned (some-injective _ _ h) (
              holds_a_row token find row shown kept found ((nat_beq_iff row.revoked 0).0 e) (
                ground (
                  arith,
                  good,
                  str_eq_iff row.scope scope_operator,
                  str_eq_iff row.scope scope_skill,
                ))))
    ]
  ]

  resolve-Earned : (p : Principal) → resolve go a r ≡ some p → Earned p
  unfolding resolve constant_time_match
  resolve-Earned p = elim (Option-cases (presented_token go r)) [
    | inl e ↦ rw (resolve, e) (λ h. absurd (ground (arith, h)))
    | inr (token, e) ↦ elim (Bool-cases (token == a.token)) [
      | inl same ↦
          rw (resolve, e, same)
            (λ h.
              subst Earned (some-injective _ _ h)
                (holds_the_token (e ∙ ap some ((str_eq_iff token a.token).0 same))))
      | inr other ↦ elim (Option-cases a.tokens) [
        | inl e' ↦ rw (resolve, e, other, e') (λ h. absurd (ground (arith, h)))
        | inr (find, e') ↦ elim (Option-cases (find (hash_token go token))) [
          | inl e'' ↦ rw (resolve, e, other, e', e'') (λ h. absurd (ground (arith, h)))
          | inr (row, e'') ↦
              let by_row : resolve go a r ≡ principal_of_row row =
                rw (resolve, e, other, e', e'') refl in
              λ h. row-Earned token find row p e e' e'' (sym by_row ∙ h)
        ]
      ]
    ]
  ]

  Earned-scope : (p : Principal) → Earned p → (p.scope ≡ scope_operator) ⊎ (p.scope ≡ scope_skill)
  Earned-scope p (holds_the_token e) = inl refl
  Earned-scope p (holds_a_row token find row e e' e'' live scope) = scope

  -- On a node that has a token, a request on a path that is not open is served only where it
  -- presents the node's own token, or a token whose row is live and of a scope that the kernel
  -- issues; and a principal of the skill scope is served only the routes that are a skill's.
  pub served-Earned :
      (p : Principal)
      → a.token ≢ ""
      → open_path r.path a.open_witness a.api_routes ≡ false
      → authenticate go a r ≡ served p
      → Earned p × ((p.scope ≡ scope_operator) ⊎ (p.scope ≡ scope_skill) × Reached r.method r.path)
  unfolding authenticate
  served-Earned p t closed = elim (Option-cases (resolve go a r)) [
    | inl e ↦ rw (authenticate, named t, closed, e) (λ h. absurd (ground (arith, h)))
    | inr (q, e) ↦ elim (Bool-cases (allows q r.method r.path)) [
      | inr denied ↦ rw (authenticate, named t, closed, e, denied) (λ h. absurd (ground (arith, h)))
      | inl ok ↦
          rw (authenticate, named t, closed, e, ok)
            (λ h.
              let q_earned = resolve-Earned q e in
              subst
                (λ x.
                  Earned x
                  × ((x.scope ≡ scope_operator)
                      ⊎ (x.scope ≡ scope_skill) × Reached r.method r.path))
                (ap who h)
                (
                  q_earned,
                  ground (arith, ok, Earned-scope q q_earned, skill_allowed_iff q r.method r.path),
                ))
    ]
  ]

  -- On a node that has a token, a connection that is let in and whose principal may register a
  -- capability presented a token that makes it that principal, which is the operator's or, of the
  -- skill scope, was issued for exactly that capability, which is not empty.
  pub registers_as_issued :
      (p : Principal) (capability : String)
      → a.token ≢ ""
      → authenticate_wire go (some a) r ≡ (p, true)
      → may_register p capability ≡ true
      → Earned p
        × ((p.scope ≡ scope_operator)
            ⊎ (p.scope ≡ scope_skill) × (p.capability ≡ capability) × (capability ≢ ""))
  unfolding authenticate_wire may_register is_operator
  registers_as_issued p capability t = elim (Option-cases (resolve go a r)) [
    | inl e ↦ rw (authenticate_wire, named t, e) (λ h may. absurd (ground (arith, ap (λ x. x.1) h)))
    | inr (q, e) ↦
        rw (authenticate_wire, named t, e)
          (λ h may.
            let q_earned = subst Earned (ap (λ x. x.0) h) (resolve-Earned q e) in
            (
              q_earned,
              ground (
                arith,
                may,
                Earned-scope p q_earned,
                str_eq_iff p.scope scope_operator,
                str_eq_iff p.capability "",
                str_eq_iff p.capability capability,
              ),
            ))
  ]
