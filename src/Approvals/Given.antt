-- ===== src/Approvals/Given.antt =====
-- No caller of a pending approval is told yes unless somebody answered yes.
use deepaxiom_aura.Base.{
  ℕ, ◌≡◌, String, ◌⊎◌, inl, inr, true, List, [], ◌∷◌, ◌==◌, nat_eq, string_eq, arith, lookup, erase,
  Option-cases, Bool-cases,
}
use deepaxiom_aura.Approvals.{
  Answer, Registry, with_ttl, denial, open_question, resolve_question, release, expire, Step,
  opened, answered, released, expired, step, run, answers_on,
}

module _ {Approval : Type 0} where
  abbrev pub In : Answer Approval → List (Answer Approval) → Type 0
  In a [] = ⊥
  In a (b ∷ rest) = (a ≡ b) ⊎ In a rest

  -- Somebody answered one of the questions so.
  abbrev pub Given : Answer Approval → List (Step Approval) → Type 0
  Given a [] = ⊥
  Given a (opened new_id now p ∷ steps) = Given a steps
  Given a (answered id b ∷ steps) = (a ≡ b) ⊎ Given a steps
  Given a (released h ∷ steps) = Given a steps
  Given a (expired ch ∷ steps) = Given a steps

  resolve_question-In :
      (ch : ℕ) (id : String) (a b : Answer Approval) (r : Registry Approval)
      → In a (answers_on ch (resolve_question id b r).0.sent)
      → (a ≡ b) ⊎ In a (answers_on ch r.sent)
  unfolding resolve_question answers_on
  resolve_question-In ch id a b r = elim (Option-cases (lookup id r.items)) [
    | inl e ↦ rw (resolve_question, e) (λ i. inr i)
    | inr (w, e) ↦
        rw (resolve_question, e)
          elim (Bool-cases (w.ch == ch)) [
            | inl here ↦ rw here (λ i. i)
            | inr apart ↦ rw apart (λ i. inr i)
          ]
  ]

  expire-In :
      (ch c : ℕ) (a : Answer Approval) (r : Registry Approval)
      → In a (answers_on ch (expire c r).sent)
      → (a ≡ denial) ⊎ In a (answers_on ch r.sent)
  unfolding expire
  expire-In ch c a r = elim (Option-cases (lookup c r.timers)) [
    | inl e ↦ rw (expire, e) (λ i. inr i)
    | inr (id, e) ↦
        rw (expire, e) (resolve_question-In ch id a denial (record r { timers = erase c r.timers }))
  ]

  run-In :
      (ch : ℕ) (a : Answer Approval) (steps : List (Step Approval)) (r : Registry Approval)
      → In a (answers_on ch (run steps r).sent)
      → Given a steps ⊎ (a ≡ denial) ⊎ In a (answers_on ch r.sent)
  unfolding run step open_question release
  run-In ch a [] r i = inr (inr i)
  run-In ch a (opened new_id now p ∷ steps) r i =
      run-In ch a steps (open_question new_id now p r).0 i
  run-In ch a (answered id b ∷ steps) r i = elim (run-In ch a steps (resolve_question id b r).0 i) [
    | inl g ↦ inl (inr g)
    | inr (inl d) ↦ inr (inl d)
    | inr (inr h) ↦ elim (resolve_question-In ch id a b r h) [
      | inl e ↦ inl (inl e)
      | inr k ↦ inr (inr k)
    ]
  ]
  run-In ch a (released h ∷ steps) r i = run-In ch a steps (release h r) i
  run-In ch a (expired c ∷ steps) r i = elim (run-In ch a steps (expire c r) i) [
    | inl g ↦ inl g
    | inr (inl d) ↦ inr (inl d)
    | inr (inr h) ↦ elim (expire-In ch c a r h) [ inl e ↦ inr (inl e) | inr k ↦ inr (inr k) ]
  ]

  -- An answer that approves and that a caller receives, in any run of the registry from empty, was
  -- given by a call of Resolve in that run: no timer approves.
  pub run-Given :
      (d : ℕ) (steps : List (Step Approval)) (ch : ℕ) (a : Answer Approval)
      → In a (answers_on ch (run steps (with_ttl d)).sent)
      → a.approve ≡ true
      → Given a steps
  unfolding with_ttl answers_on denial
  run-Given d steps ch a i approved = elim (run-In ch a steps (with_ttl d) i) [
    | inl g ↦ g
    | inr (inl e) ↦ absurd (ground (arith, e, approved))
    | inr (inr none_there) ↦ absurd none_there
  ]
