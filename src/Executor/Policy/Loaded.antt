-- ===== src/Executor/Policy/Loaded.antt =====
-- What holds of each policy that `LoadPolicy` returns.
use deepaxiom_aura.Base.{
  ℕ, ◌+◌, ◌≤◌, ◌≡◌, ◌≢◌, ◌⊎◌, refl, sym, ◌∙◌, ap, subst, String, Bool, true, false, Option, none,
  some, inl, inr, List, [], ◌∷◌, map, ◌==◌, string_eq, length, arith, str_eq_iff, Option-cases,
  Bool-cases,
}
use deepaxiom_aura.Base.Int.{pos, eqb_ℤ, eq_of_parts}
use deepaxiom_aura.Ledger.Context.{max_context_entries, canonical_context}
use deepaxiom_aura.Executor.Policy.{
  Policy, Rule, decision_allow, decision_gate, decision_deny, decision_valid, seal_failure_valid,
  seal_failure_deliver, seal_failure_refuse,
}
use deepaxiom_aura.Executor.Policy.Load.{
  LoadError, Files, limit_negative, with_digest, validate_required_context, check_rule, check_rules,
  or_gate, check_policy, finalize, default_policy, or_false, settle, load_policy,
}

abbrev pub Decides : String → Type 0
Decides d = (d ≡ decision_allow) ⊎ (d ≡ decision_gate) ⊎ (d ≡ decision_deny)

abbrev pub RuleOk : Files → Rule → Type 0
RuleOk env r = (env.trim_space r.match ≢ "") × Decides r.decision × (limit_negative r.limit ≡ false)

abbrev pub RulesOk : Files → List Rule → Type 0
RulesOk env [] = Unit
RulesOk env (r ∷ rules) = RuleOk env r × RulesOk env rules

pub record InForce (env : Files) (p : Policy) : Type 0 where
  pub version_ok : p.version ≡ pos 1
  pub default_ok : Decides p.default_effect
  pub seal_ok :
      (p.on_seal_failure ≡ "")
      ⊎ (p.on_seal_failure ≡ seal_failure_deliver)
      ⊎ (p.on_seal_failure ≡ seal_failure_refuse)
  pub rules_ok : RulesOk env p.rules
  pub waiver_said : ¬ (p.allow_graph_waiver ≡ none)
  pub context_ok : length p.require_approval_context ≤ max_context_entries
  pub unspent : p.buckets ≡ []

decision_valid-Decides : (d : String) → decision_valid d ≡ true → Decides d
unfolding decision_valid
decision_valid-Decides d h =
    ground (
      arith,
      h,
      str_eq_iff d decision_allow,
      str_eq_iff d decision_gate,
      str_eq_iff d decision_deny,
    )

length-map : {A B : Type 0} (f : A → B) (xs : List A) → length (map f xs) ≡ length xs
length-map f [] = refl
length-map f (x ∷ xs) = omega (arith, length-map f xs)

module _ (env : Files) where
  check_rule_clear : (i : ℕ) (r : Rule) → check_rule env i r ≡ none → RuleOk env r
  unfolding check_rule
  check_rule_clear i r h =
      ground (arith, h, str_eq_iff (env.trim_space r.match) "", decision_valid-Decides r.decision)

  check_rules_clear :
      (i : ℕ) (rules : List Rule) → check_rules env i rules ≡ none → RulesOk env rules
  unfolding check_rules
  check_rules_clear i [] = λ h. tt
  check_rules_clear i (r ∷ rules) = elim (Option-cases (check_rule env i r)) [
    | inr (e, failed) ↦ rw (check_rules, failed) (λ h. absurd (ground (arith, h)))
    | inl passed ↦
        rw (check_rules, passed)
          (λ h. (check_rule_clear i r passed, check_rules_clear (i + 1) rules h))
  ]

  context_bounded :
      (labels : List String)
      → validate_required_context env labels ≡ none
      → length labels ≤ max_context_entries
  unfolding validate_required_context canonical_context
  context_bounded labels h = ground (arith, h, length-map with_digest labels)

  check_policy_clear :
      (p : Policy)
      → check_policy env p ≡ none
      → (eqb_ℤ p.version (pos 1) ≡ true)
        × (decision_valid (or_gate p.default_effect) ≡ true)
        × (seal_failure_valid p.on_seal_failure ≡ true)
        × (check_rules env 0 p.rules ≡ none)
        × (validate_required_context env p.require_approval_context ≡ none)
  unfolding check_policy
  check_policy_clear p h = ground (arith, h)

  or_false_said : (o : Option Bool) → ¬ (or_false o ≡ none)
  unfolding or_false
  or_false_said none e = absurd (ground (arith, e))
  or_false_said (some b) e = absurd (ground (arith, e))

  settle-InForce :
      (path raw : String) (p : Policy)
      → check_policy env p ≡ none
      → InForce env (settle env path raw p)
  unfolding settle finalize seal_failure_valid
  settle-InForce path raw p h =
      let (version, default, seals, rules, context) = check_policy_clear p h in
      record {
        version_ok = eq_of_parts p.version (pos 1) (ground (arith, version));
        default_ok = decision_valid-Decides (or_gate p.default_effect) default;
        seal_ok = ground (
          arith,
          seals,
          str_eq_iff p.on_seal_failure "",
          str_eq_iff p.on_seal_failure seal_failure_deliver,
          str_eq_iff p.on_seal_failure seal_failure_refuse,
        );
        rules_ok = check_rules_clear 0 p.rules rules;
        waiver_said = or_false_said p.allow_graph_waiver;
        context_ok = context_bounded p.require_approval_context context;
        unspent = refl;
      }

  default_policy-InForce : InForce env (default_policy env)
  unfolding default_policy finalize
  default_policy-InForce = record {
    version_ok = refl;
    default_ok = inr (inl refl);
    seal_ok = inl refl;
    rules_ok = tt;
    waiver_said = λ e. absurd (ground (arith, e));
    context_ok = omega arith;
    unspent = refl;
  }

  abbrev in_force : LoadError ⊎ Policy → Policy
  in_force (inl e) = default_policy env
  in_force (inr p) = p

  -- A policy that LoadPolicy returns, from a file or built in, is of version 1, has a default and
  -- rules that allow, gate or deny, a stance on failed seals that the kernel knows, no rule with a
  -- blank pattern or a negative limit, a word on the graphs' waiver, at most as many required
  -- artifacts as an approval may carry, and no spent rate.
  pub load_policy-InForce :
      (path : String) (p : Policy) → load_policy env path ≡ inr p → InForce env p
  unfolding load_policy
  load_policy-InForce path p = elim (Bool-cases (path == "")) [
    | inl e ↦ rw (load_policy, e) (λ h. subst (InForce env) (ap in_force h) default_policy-InForce)
    | inr e ↦ elim (Option-cases (env.read_file path)) [
      | inl r ↦ rw (load_policy, e, r) (λ h. absurd (ground (arith, h)))
      | inr (raw, r) ↦ elim (Option-cases (env.unmarshal raw)) [
        | inl u ↦ rw (load_policy, e, r, u) (λ h. absurd (ground (arith, h)))
        | inr (q, u) ↦ elim (Option-cases (check_policy env q)) [
          | inr (err, c) ↦
              let refused : load_policy env path ≡ inl err = rw (load_policy, e, r, u, c) refl in
              λ h. absurd (ground (arith, refused, h))
          | inl c ↦
              let loaded : load_policy env path ≡ inr (settle env path raw q) =
                rw (load_policy, e, r, u, c) refl in
              λ h. subst (InForce env) (ap in_force (sym loaded ∙ h)) (settle-InForce path raw q c)
        ]
      ]
    ]
  ]
