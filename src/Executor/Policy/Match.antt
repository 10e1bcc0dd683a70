-- ===== src/Executor/Policy/Match.antt =====
-- What `matchCapability` of policy.go matches.
use text.Mathlib.TextLemmas.{append_assoc}
use deepaxiom_aura.Base.{
  ◌≡◌, ◌↔◌, inl, inr, refl, ◌∙◌, String, Bool, true, ◌||◌, arith, ◌==◌, string_eq, str_eq_iff,
  Bool-cases, ◌+++◌, has_prefix, has_suffix, trim_suffix, has_prefix_iff, trim-append,
  suffix-append, trim-append_right,
}
use deepaxiom_aura.Executor.Policy.{match_capability}

-- A pattern is `*`, a prefix with `.*` behind it, or the capability itself.
pub data Matches (match capability : String) : Type 0 where
  any : match ≡ "*" → Matches match capability
  bare :
      (prefix : String) → prefix +++ ".*" ≡ match → capability ≡ prefix → Matches match capability
  under :
      (prefix rest : String)
      → prefix +++ ".*" ≡ match
      → (prefix +++ ".") +++ rest ≡ capability
      → Matches match capability
  exact : match ≡ capability → Matches match capability

module _ (match capability : String) where
  abbrev under_prefix : String → Bool
  under_prefix prefix = (capability == prefix) || has_prefix capability (prefix +++ ".")

  under_prefix_sound :
      (prefix : String)
      → prefix +++ ".*" ≡ match
      → under_prefix prefix ≡ true
      → Matches match capability
  under_prefix_sound prefix e h = elim (Bool-cases (capability == prefix)) [
    | inl same ↦ bare prefix e ((str_eq_iff capability prefix).0 same)
    | inr differ ↦
        let (rest, split) = (has_prefix_iff capability (prefix +++ ".")).0 (ground arith) in
        under prefix rest e split
  ]

  -- The test accepts only what the forms say.
  match_sound : match_capability match capability ≡ true → Matches match capability
  unfolding match_capability
  match_sound h = elim (Bool-cases (match == "*")) [
    | inl star ↦ any ((str_eq_iff match "*").0 star)
    | inr named ↦ elim (Bool-cases (has_suffix match ".*")) [
      | inl wild ↦
          under_prefix_sound (trim_suffix match ".*") (trim-append match ".*" wild)
            (rw (named, wild) at h)
      | inr plain ↦ exact ((str_eq_iff match capability).0 (rw (named, plain) at h))
    ]
  ]

  -- And it accepts all of them.
  wild_complete :
      (prefix : String)
      → prefix +++ ".*" ≡ match
      → under_prefix prefix ≡ true
      → match_capability match capability ≡ true
  unfolding match_capability
  wild_complete prefix e h = elim (Bool-cases (match == "*")) [
    | inl star ↦ rw star refl
    | inr named ↦
        let wild : has_suffix match ".*" ≡ true = rw (← e) (suffix-append prefix ".*") in
        let front : trim_suffix match ".*" ≡ prefix = rw (← e) (trim-append_right prefix ".*") in
        rw (named, wild, front) h
  ]

  exact_complete : match ≡ capability → match_capability match capability ≡ true
  unfolding match_capability
  exact_complete e = elim (Bool-cases (match == "*")) [
    | inl star ↦ rw star refl
    | inr named ↦ elim (Bool-cases (has_suffix match ".*")) [
      | inl wild ↦ wild_complete (trim_suffix match ".*") (trim-append match ".*" wild) (
          ground (
            arith,
            (has_prefix_iff capability (trim_suffix match ".*" +++ ".")).1 (
              "*",
              append_assoc (trim_suffix match ".*") "." "*" ∙ trim-append match ".*" wild ∙ e,
            ),
          ))
      | inr plain ↦ rw (named, plain) ((str_eq_iff match capability).1 e)
    ]
  ]

  match_complete : Matches match capability → match_capability match capability ≡ true
  unfolding match_capability
  match_complete (any e) = rw ((str_eq_iff match "*").1 e) refl
  match_complete (bare prefix e same) =
      wild_complete prefix e (ground (arith, str_eq_iff capability prefix))
  match_complete (under prefix rest e split) =
      wild_complete prefix e
        (ground (arith, (has_prefix_iff capability (prefix +++ ".")).1 (rest, split)))
  match_complete (exact e) = exact_complete e

-- A pattern matches exactly the capabilities that its form covers: all for *, the bare prefix and
-- whatever stands behind its dot for prefix.*, and otherwise the capability itself.
pub match_capability_iff :
    (match capability : String)
    → (match_capability match capability ≡ true) ↔ Matches match capability
match_capability_iff match capability =
    (match_sound match capability, match_complete match capability)
