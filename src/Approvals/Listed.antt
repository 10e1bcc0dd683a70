-- ===== src/Approvals/Listed.antt =====
-- The list that the operator sees: every question that waits, the oldest first.
use deepaxiom_aura.Base.{◌≤◌, refl, List, [], ◌∷◌, ◌++◌, ltb, arith, inl, inr, Bool-cases}
use mathlib.Core.List.{Permᴰ, Perm, append-nil}
use mathlib.Core.List.Permᴰ
use deepaxiom_aura.Approvals.{Pending, Registry, sink, sink_all, turn_over, waiting, list_questions}

abbrev pub AllFrom : (Pending → Type 0) → List Pending → Type 0
AllFrom P [] = Unit
AllFrom P (p ∷ ps) = P p × AllFrom P ps

abbrev pub OldestFirst : List Pending → Type 0
OldestFirst [] = Unit
OldestFirst (p ∷ ps) = AllFrom (λ q. p.requested ≤ q.requested) ps × OldestFirst ps

abbrev NewestFirst : List Pending → Type 0
NewestFirst [] = Unit
NewestFirst (p ∷ ps) = AllFrom (λ q. q.requested ≤ p.requested) ps × NewestFirst ps

AllFrom-mono :
    (P Q : Pending → Type 0) (ps : List Pending)
    → ((q : Pending) → P q → Q q)
    → AllFrom P ps
    → AllFrom Q ps
AllFrom-mono P Q [] f all = tt
AllFrom-mono P Q (p ∷ ps) f (here, later) = (f p here, AllFrom-mono P Q ps f later)

sink-AllFrom :
    (P : Pending → Type 0) (p : Pending) (ps : List Pending)
    → P p
    → AllFrom P ps
    → AllFrom P (sink p ps)
unfolding sink
sink-AllFrom P p [] here all = (here, tt)
sink-AllFrom P p (q ∷ ps) here (first, later) = elim (Bool-cases (ltb p.requested q.requested)) [
  | inl e ↦ rw e (first, sink-AllFrom P p ps here later)
  | inr e ↦ rw e (here, (first, later))
]

sink-NewestFirst : (p : Pending) (ps : List Pending) → NewestFirst ps → NewestFirst (sink p ps)
unfolding sink
sink-NewestFirst p [] ord = (tt, tt)
sink-NewestFirst p (q ∷ ps) (first, later) = elim (Bool-cases (ltb p.requested q.requested)) [
  | inl e ↦ rw e (
    sink-AllFrom (λ x. x.requested ≤ q.requested) p ps (ground (arith, e)) first,
    sink-NewestFirst p ps later,
  )
  | inr e ↦
      let older : q.requested ≤ p.requested = ground (arith, e) in
      rw e (
        (
          older,
          AllFrom-mono (λ x. x.requested ≤ q.requested) (λ x. x.requested ≤ p.requested) ps
              (λ x h. omega (arith, h, older)) first,
        ),
        (first, later),
      )
]

sink_perm : (p : Pending) (ps : List Pending) → Permᴰ (sink p ps) (p ∷ ps)
unfolding sink
sink_perm p [] = Permᴰ.refl (p ∷ [])
sink_perm p (q ∷ ps) = elim (Bool-cases (ltb p.requested q.requested)) [
  | inl e ↦ rw e (Permᴰ.trans (Permᴰ.cons refl (sink_perm p ps)) (Permᴰ.swap refl refl))
  | inr e ↦ rw e (Permᴰ.refl (p ∷ q ∷ ps))
]

sink_all-NewestFirst :
    (done out : List Pending) → NewestFirst done → NewestFirst (sink_all done out)
unfolding sink_all
sink_all-NewestFirst done [] ord = ord
sink_all-NewestFirst done (p ∷ out) ord =
    sink_all-NewestFirst (sink p done) out (sink-NewestFirst p done ord)

sink_all_perm : (done out : List Pending) → Permᴰ (sink_all done out) (done ++ out)
unfolding sink_all
sink_all_perm done [] = rw (append-nil done) (Permᴰ.refl done)
sink_all_perm done (p ∷ out) =
    Permᴰ.trans (sink_all_perm (sink p done) out) (
      Permᴰ.trans (Permᴰ.append_right out (sink_perm p done))
        (Permᴰ.symm (Permᴰ.middle p done out)))

turn_over_perm : (done ps : List Pending) → Permᴰ (turn_over done ps) (ps ++ done)
unfolding turn_over
turn_over_perm done [] = Permᴰ.refl done
turn_over_perm done (p ∷ ps) = Permᴰ.trans (turn_over_perm (p ∷ done) ps) (Permᴰ.middle p ps done)

both :
    (p : Pending) (done xs : List Pending)
    → AllFrom (λ x. x.requested ≤ p.requested) xs
    → AllFrom (λ x. AllFrom (λ q. x.requested ≤ q.requested) done) xs
    → AllFrom (λ x. AllFrom (λ q. x.requested ≤ q.requested) (p ∷ done)) xs
both p done [] f u = tt
both p done (x ∷ xs) (f, fs) (u, us) = ((f, u), both p done xs fs us)

turn_over-OldestFirst :
    (done ps : List Pending)
    → OldestFirst done
    → NewestFirst ps
    → AllFrom (λ p. AllFrom (λ q. p.requested ≤ q.requested) done) ps
    → OldestFirst (turn_over done ps)
unfolding turn_over
turn_over-OldestFirst done [] ord new under = ord
turn_over-OldestFirst done (p ∷ ps) ord (first, later) (here, under) =
    turn_over-OldestFirst (p ∷ done) ps (here, ord) later (both p done ps first under)

free : (ps : List Pending) → AllFrom (λ p. AllFrom (λ q. p.requested ≤ q.requested) []) ps
free [] = tt
free (p ∷ ps) = (tt, free ps)

-- The list of questions holds each question that waits as often as it waits, the ones requested
-- earlier before those requested later.
pub list_questions_lem :
    {Approval : Type 0} (r : Registry Approval)
    → OldestFirst (list_questions r) × Perm (list_questions r) (waiting r)
unfolding list_questions
list_questions_lem r =
    let out = sink_all [] (waiting r) in
    (
      turn_over-OldestFirst [] out tt (sink_all-NewestFirst [] (waiting r) tt) (free out),
      ∣ Permᴰ.trans (turn_over_perm [] out) (rw (append-nil out) (sink_all_perm [] (waiting r))) ∣₁,
    )
