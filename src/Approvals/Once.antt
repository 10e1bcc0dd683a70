-- ===== src/Approvals/Once.antt =====
-- No caller of a pending approval gets a second answer on its channel.
use deepaxiom_aura.Base.{
  ℕ, ◌+◌, ◌≤◌, ◌<◌, ◌≡◌, inl, inr, refl, String, some, List, [], ◌∷◌, string_eq, nat_eq, arith,
  length, lookup, erase, lookup-insert, lookup-erase, Option-cases, str_eq_iff,
}
use deepaxiom_aura.Approvals.{
  Pending, Answer, Waiter, Registry, Handle, question_id, with_ttl, denial, open_question,
  resolve_question, release, expire, Step, opened, answered, released, expired, step, run,
  answers_on,
}

module _ {Approval : Type 0} where
  -- The channels that wait are made, are each for one question, and have received nothing; a channel
  -- that is not made yet has received nothing, and none has received more than one answer.
  pub record Inv (r : Registry Approval) : Type 0 where
    pub made : (id : String) (w : Waiter) → lookup id r.items ≡ some w → w.ch < r.made
    pub silent :
        (id : String) (w : Waiter) → lookup id r.items ≡ some w → answers_on w.ch r.sent ≡ []
    pub own :
        (i j : String) (w v : Waiter)
        → lookup i r.items ≡ some w
        → lookup j r.items ≡ some v
        → w.ch ≡ v.ch
        → i ≡ j
    pub unused : (ch : ℕ) → r.made ≤ ch → answers_on ch r.sent ≡ []
    pub once : (ch : ℕ) → length (answers_on ch r.sent) ≤ 1

  pub with_ttl-Inv : (d : ℕ) → Inv (with_ttl d)
  unfolding with_ttl lookup answers_on
  with_ttl-Inv d = record {
    made = λ id w h. absurd (ground (arith, h));
    silent = λ id w h. refl;
    own = λ i j w v h k e. absurd (ground (arith, h));
    unused = λ ch h. refl;
    once = λ ch. omega arith;
  }

  abbrev pub parked_at : String → ℕ → Pending → Registry Approval → Waiter
  parked_at new_id now p r = record {
    p = record p {
      id = question_id new_id p;
      requested = now;
      expires = now + r.ttl;
      context_required = r.required;
    };
    ch = r.made;
  }

  pub open_question-Inv :
      (new_id : String) (now : ℕ) (p : Pending) (r : Registry Approval)
      → Inv r
      → Inv (open_question new_id now p r).0
  unfolding open_question
  open_question-Inv new_id now p r inv =
      let key = question_id new_id p in
      let held = λ (id : String). lookup-insert key id (parked_at new_id now p r) r.items in
      record {
        made = λ id w h. ground (arith, held id, h, inv.made id w);
        silent = λ id w h. ground (arith, held id, h, inv.silent id w, inv.unused w.ch);
        own = λ i j w v h k e. ground (
          arith,
          held i,
          held j,
          h,
          k,
          e,
          inv.own i j w v,
          inv.made i w,
          inv.made j v,
          str_eq_iff key i,
          str_eq_iff key j,
        );
        unused = λ ch h. inv.unused ch (omega arith);
        once = inv.once;
      }

  pub resolve_question-Inv :
      (id : String) (a : Answer Approval) (r : Registry Approval)
      → Inv r
      → Inv (resolve_question id a r).0
  unfolding resolve_question answers_on
  resolve_question-Inv id a r inv = elim (Option-cases (lookup id r.items)) [
    | inl e ↦ rw (resolve_question, e) inv
    | inr (w, e) ↦
        rw (resolve_question, e)
          record {
            made = λ j v h. ground (arith, lookup-erase id j r.items, h, inv.made j v);
            silent = λ j v h. ground (
              arith,
              lookup-erase id j r.items,
              h,
              inv.silent j v,
              inv.own j id v w,
              str_eq_iff id j,
            );
            own = λ i j u v h k e'. ground (
              arith,
              lookup-erase id i r.items,
              lookup-erase id j r.items,
              h,
              k,
              inv.own i j u v,
            );
            unused = λ ch h. ground (arith, inv.made id w, inv.unused ch);
            once = λ ch. ground (arith, inv.silent id w, inv.once ch);
          }
  ]

  pub release-Inv : (h : Handle) (r : Registry Approval) → Inv r → Inv (release h r)
  unfolding release
  release-Inv h r inv = record {
    made = λ j v k. ground (arith, lookup-erase h.id j r.items, k, inv.made j v);
    silent = λ j v k. ground (arith, lookup-erase h.id j r.items, k, inv.silent j v);
    own = λ i j u v k l e.
        ground
          (arith, lookup-erase h.id i r.items, lookup-erase h.id j r.items, k, l, inv.own i j u v);
    unused = inv.unused;
    once = inv.once;
  }

  pub stop_timer-Inv :
      (ch : ℕ) (r : Registry Approval) → Inv r → Inv (record r { timers = erase ch r.timers })
  stop_timer-Inv ch r inv = record {
    made = inv.made;
    silent = inv.silent;
    own = inv.own;
    unused = inv.unused;
    once = inv.once;
  }

  pub expire-Inv : (ch : ℕ) (r : Registry Approval) → Inv r → Inv (expire ch r)
  unfolding expire
  expire-Inv ch r inv = elim (Option-cases (lookup ch r.timers)) [
    | inl e ↦ rw (expire, e) inv
    | inr (id, e) ↦ rw (expire, e) (resolve_question-Inv id denial _ (stop_timer-Inv ch r inv))
  ]

  pub step-Inv : (s : Step Approval) (r : Registry Approval) → Inv r → Inv (step s r)
  unfolding step
  step-Inv (opened new_id now p) r inv = open_question-Inv new_id now p r inv
  step-Inv (answered id a) r inv = resolve_question-Inv id a r inv
  step-Inv (released h) r inv = release-Inv h r inv
  step-Inv (expired ch) r inv = expire-Inv ch r inv

  pub run-Inv : (steps : List (Step Approval)) (r : Registry Approval) → Inv r → Inv (run steps r)
  unfolding run
  run-Inv [] r inv = inv
  run-Inv (s ∷ steps) r inv = run-Inv steps (step s r) (step-Inv s r inv)

  -- In any run of the registry from empty, no channel is sent a second answer: a send never meets a
  -- channel that is closed.
  pub answered_once :
      (d : ℕ) (steps : List (Step Approval)) (ch : ℕ)
      → length (answers_on ch (run steps (with_ttl d)).sent) ≤ 1
  answered_once d steps ch = (run-Inv steps (with_ttl d) (with_ttl-Inv d)).once ch
