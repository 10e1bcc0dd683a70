-- ===== src/Approvals/Settled.antt =====
-- Each caller of a pending approval gets its answer, a denial when nobody answers.
use deepaxiom_aura.Base.{
  ℕ, ◌≡◌, ◌≢◌, inl, inr, refl, String, some, List, [], ◌∷◌, ◌==◌, string_eq, nat_eq, arith, lookup,
  erase, lookup-insert, lookup-erase, Option-cases, Bool-cases, str_eq_iff, nat_beq_iff,
}
use deepaxiom_aura.Approvals.{
  Pending, Answer, Waiter, Registry, Handle, question_id, with_ttl, denial, open_question,
  resolve_question, release, expire, Step, opened, answered, released, expired, step, run,
  answers_on,
}
use deepaxiom_aura.Approvals.Once.{
  Inv, with_ttl-Inv, parked_at, open_question-Inv, stop_timer-Inv, step-Inv, run-Inv,
}

module _ {Approval : Type 0} where
  -- The steps of others: no question is parked under this id, and the caller goes on waiting.
  abbrev pub Leaves : String → ℕ → Step Approval → Type 0
  Leaves id ch (opened new_id now p) = question_id new_id p ≢ id
  Leaves id ch (answered j a) = Unit
  Leaves id ch (released h) = (h.id ≢ id) × (h.ch ≢ ch)
  Leaves id ch (expired c) = Unit

  abbrev pub AllLeave : String → ℕ → List (Step Approval) → Type 0
  AllLeave id ch [] = Unit
  AllLeave id ch (s ∷ steps) = Leaves id ch s × AllLeave id ch steps

  -- The question waits with its timer armed, or its caller has its answer.
  data Attended (id : String) (ch : ℕ) (r : Registry Approval) : Type 0 where
    waits :
        (w : Waiter)
        → lookup id r.items ≡ some w
        → w.ch ≡ ch
        → lookup ch r.timers ≡ some id
        → Attended id ch r
    told : (a : Answer Approval) → answers_on ch r.sent ≡ a ∷ [] → Attended id ch r

  resolve_keeps :
      (ch : ℕ) (j : String) (a b : Answer Approval) (r : Registry Approval)
      → Inv r
      → answers_on ch r.sent ≡ a ∷ []
      → answers_on ch (resolve_question j b r).0.sent ≡ a ∷ []
  unfolding resolve_question answers_on
  resolve_keeps ch j a b r inv h = elim (Option-cases (lookup j r.items)) [
    | inl none_there ↦ rw (resolve_question, none_there) h
    | inr (v, there) ↦ rw (resolve_question, there) (ground (arith, inv.silent j v there, h))
  ]

  resolve_question-Attended :
      (id : String) (ch : ℕ) (j : String) (a : Answer Approval) (r : Registry Approval)
      → Inv r
      → Attended id ch r
      → Attended id ch (resolve_question j a r).0
  unfolding resolve_question answers_on
  resolve_question-Attended id ch j a r inv (told b h) = told b (resolve_keeps ch j b a r inv h)
  resolve_question-Attended id ch j a r inv (waits w h c t) =
      elim (Option-cases (lookup j r.items)) [
        | inl none_there ↦ rw (resolve_question, none_there) (waits w h c t)
        | inr (v, there) ↦
            rw (resolve_question, there)
              elim (Bool-cases (j == id)) [
                | inl same ↦
                    told a (ground (arith, str_eq_iff j id, same, there, h, c, inv.silent id w h))
                | inr apart ↦ waits w (ground (arith, lookup-erase j id r.items, apart, h)) c t
              ]
      ]

  open_question-Attended :
      (id : String) (ch : ℕ) (new_id : String) (now : ℕ) (p : Pending) (r : Registry Approval)
      → question_id new_id p ≢ id
      → Inv r
      → Attended id ch r
      → Attended id ch (open_question new_id now p r).0
  unfolding open_question
  open_question-Attended id ch new_id now p r other inv (told a h) = told a h
  open_question-Attended id ch new_id now p r other inv (waits w h c t) =
      let key = question_id new_id p in
      waits w
        (ground (
          arith,
          lookup-insert key id (parked_at new_id now p r) r.items,
          str_eq_iff key id,
          other,
          h,
        ))
        c (ground (arith, lookup-insert r.made ch key r.timers, inv.made id w h, c, t))

  release-Attended :
      (id : String) (ch : ℕ) (h : Handle) (r : Registry Approval)
      → (h.id ≢ id) × (h.ch ≢ ch)
      → Attended id ch r
      → Attended id ch (release h r)
  unfolding release
  release-Attended id ch h r other (told a k) = told a k
  release-Attended id ch h r (other, apart) (waits w k c t) =
      waits w (ground (arith, lookup-erase h.id id r.items, str_eq_iff h.id id, other, k)) c
        (ground (arith, lookup-erase h.ch ch r.timers, apart, t))

  expire_keeps :
      (ch c : ℕ) (a : Answer Approval) (r : Registry Approval)
      → Inv r
      → answers_on ch r.sent ≡ a ∷ []
      → answers_on ch (expire c r).sent ≡ a ∷ []
  unfolding expire
  expire_keeps ch c a r inv h = elim (Option-cases (lookup c r.timers)) [
    | inl e ↦ rw (expire, e) h
    | inr (j, e) ↦ rw (expire, e) (resolve_keeps ch j a denial _ (stop_timer-Inv c r inv) h)
  ]

  expire_denies :
      (id : String) (ch : ℕ) (w : Waiter) (r : Registry Approval)
      → Inv r
      → lookup id r.items ≡ some w
      → w.ch ≡ ch
      → lookup ch r.timers ≡ some id
      → answers_on ch (expire ch r).sent ≡ denial ∷ []
  unfolding expire answers_on resolve_question
  expire_denies id ch w r inv h c t =
      rw (expire, t, resolve_question, h) (ground (arith, c, inv.silent id w h))

  expire-Attended :
      (id : String) (ch c : ℕ) (r : Registry Approval)
      → Inv r
      → Attended id ch r
      → Attended id ch (expire c r)
  unfolding expire
  expire-Attended id ch c r inv (told a h) = told a (expire_keeps ch c a r inv h)
  expire-Attended id ch c r inv (waits w h c' t) = elim (Bool-cases (c == ch)) [
    | inl same ↦ told denial (rw ((nat_beq_iff c ch).0 same) (expire_denies id ch w r inv h c' t))
    | inr apart ↦ elim (Option-cases (lookup c r.timers)) [
      | inl e ↦ rw (expire, e) (waits w h c' t)
      | inr (j, e) ↦
          let rings : lookup ch (erase c r.timers) ≡ some id =
            ground (arith, lookup-erase c ch r.timers, apart, t) in
          rw (expire, e)
            (resolve_question-Attended id ch j denial _ (stop_timer-Inv c r inv)
              (waits w h c' rings))
    ]
  ]

  step-Attended :
      (id : String) (ch : ℕ) (s : Step Approval) (r : Registry Approval)
      → Leaves id ch s
      → Inv r
      → Attended id ch r
      → Attended id ch (step s r)
  unfolding step
  step-Attended id ch (opened new_id now p) r leaves inv att =
      open_question-Attended id ch new_id now p r leaves inv att
  step-Attended id ch (answered j a) r leaves inv att =
      resolve_question-Attended id ch j a r inv att
  step-Attended id ch (released h) r leaves inv att = release-Attended id ch h r leaves att
  step-Attended id ch (expired c) r leaves inv att = expire-Attended id ch c r inv att

  run-Attended :
      (id : String) (ch : ℕ) (steps : List (Step Approval)) (r : Registry Approval)
      → AllLeave id ch steps
      → Inv r
      → Attended id ch r
      → Attended id ch (run steps r)
  unfolding run
  run-Attended id ch [] r leave inv att = att
  run-Attended id ch (s ∷ steps) r (leaves, leave) inv att =
      run-Attended id ch steps (step s r) leave (step-Inv s r inv)
        (step-Attended id ch s r leaves inv att)

  -- The timer's own turn: who still waits is denied.
  expire_told :
      (id : String) (ch : ℕ) (r : Registry Approval)
      → Inv r
      → Attended id ch r
      → (a : Answer Approval) × (answers_on ch (expire ch r).sent ≡ a ∷ [])
  expire_told id ch r inv (waits w h c t) = (denial, expire_denies id ch w r inv h c t)
  expire_told id ch r inv (told a h) = (a, expire_keeps ch ch a r inv h)

  open_question-waits :
      (new_id : String) (now : ℕ) (p : Pending) (r : Registry Approval)
      → Attended (question_id new_id p) r.made (open_question new_id now p r).0
  unfolding open_question
  open_question-waits new_id now p r =
      let key = question_id new_id p in
      waits (parked_at new_id now p r)
        (ground
          (arith, lookup-insert key key (parked_at new_id now p r) r.items, str_eq_iff key key))
        refl (ground (arith, lookup-insert r.made r.made key r.timers))

  -- After any run of the registry, a question that is parked gets exactly one answer on its channel
  -- once its timer has gone off, whatever others do meanwhile that neither parks a question under
  -- its id nor stops its caller's waiting.
  pub question_settled :
      (d : ℕ) (before after : List (Step Approval)) (new_id : String) (now : ℕ) (p : Pending)
      → let r = run before (with_ttl d) in
        let (parked, h) = open_question new_id now p r in
        AllLeave h.id h.ch after
        → (a : Answer Approval) × (answers_on h.ch (expire h.ch (run after parked)).sent ≡ a ∷ [])
  unfolding open_question
  question_settled d before after new_id now p leave =
      let r = run before (with_ttl d) in
      let inv = run-Inv before (with_ttl d) (with_ttl-Inv d) in
      let parked = (open_question new_id now p r).0 in
      let inv' = open_question-Inv new_id now p r inv in
      expire_told (question_id new_id p) r.made (run after parked) (run-Inv after parked inv') (
        run-Attended (question_id new_id p) r.made after parked leave inv'
          (open_question-waits new_id now p r))
