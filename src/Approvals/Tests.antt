-- ===== src/Approvals/Tests.antt =====
-- Two questions that wait, one of which is answered and one of which is not.
use deepaxiom_aura.Base.{
  ◌≤◌, ◌≡◌, refl, inl, String, true, some, List, [], ◌∷◌, string_eq, nat_eq, length, map, lookup,
  insert, erase, str_eq, str_ne,
}
use mathlib.Core.List.{Perm}
use deepaxiom_aura.Approvals.{
  Pending, Answer, Registry, Handle, no_pending, question_id, with_ttl, open_question,
  resolve_question, expire, sink, sink_all, turn_over, waiting, list_questions, Step, opened,
  answered, expired, step, run, answers_on,
}
use deepaxiom_aura.Approvals.Once.{answered_once}
use deepaxiom_aura.Approvals.Settled.{AllLeave, question_settled}
use deepaxiom_aura.Approvals.Given.{In, Given, run-Given}
use deepaxiom_aura.Approvals.Listed.{OldestFirst, list_questions_lem}

abbrev pay : Pending
pay = record {
  id = "";
  question = "Pay the invoice?";
  origin = "mcp";
  tool = "pay";
  capability = "motor.pay";
  session = "s1";
  arguments = "{}";
  requested = 0;
  expires = 0;
  node = "n1";
  envelope = "e1";
  context_required = [];
}

abbrev approved : Answer String
approved = record { approve = true; approval = some "signed" }

abbrev two_asked : List (Step String)
two_asked = opened "a" 20 pay ∷ opened "b" 10 pay ∷ []

abbrev one_answered : List (Step String)
one_answered = opened "a" 20 pay ∷ opened "b" 10 pay ∷ answered "a" approved ∷ []

answer_arrives : answers_on 0 (run one_answered (with_ttl 300)).sent ≡ approved ∷ []
unfolding run step open_question question_id resolve_question answers_on with_ttl lookup insert
    erase str_eq
answer_arrives = refl

second_answer_refused :
    (resolve_question "a" approved (run one_answered (with_ttl 300))).1 ≡ some (no_pending "a")
unfolding run step open_question question_id resolve_question with_ttl lookup insert erase str_eq
second_answer_refused = refl

oldest_first : map (λ p. p.id) (list_questions (run two_asked (with_ttl 300))) ≡ "b" ∷ "a" ∷ []
unfolding run step open_question question_id with_ttl lookup insert str_eq list_questions sink
    sink_all turn_over waiting
oldest_first = refl

answered_once_example : length (answers_on 0 (run one_answered (with_ttl 300)).sent) ≤ 1
answered_once_example = answered_once 300 one_answered 0

list_questions_lem_example :
    OldestFirst (list_questions (run two_asked (with_ttl 300)))
    × Perm (list_questions (run two_asked (with_ttl 300))) (waiting (run two_asked (with_ttl 300)))
list_questions_lem_example = list_questions_lem (run two_asked (with_ttl 300))

abbrev first_asked : List (Step String)
first_asked = opened "a" 20 pay ∷ []

abbrev second_handle : Handle
second_handle = record { id = "b"; ch = 1 }

abbrev others : List (Step String)
others = answered "a" approved ∷ opened "c" 30 pay ∷ expired 0 ∷ []

abbrev after_first : Registry String
after_first = run first_asked (with_ttl 300)

others_leave : AllLeave "b" 1 others
unfolding question_id str_eq
others_leave = (tt, (str_ne "c" "b" refl, (tt, tt)))

handed : (open_question "b" 25 pay after_first).1 ≡ second_handle
unfolding run step open_question question_id with_ttl insert str_eq
handed = refl

given_example : In approved (answers_on 0 (run one_answered (with_ttl 300)).sent)
unfolding run step open_question question_id resolve_question answers_on with_ttl lookup insert
    erase str_eq
given_example = inl refl

run-Given_example : Given approved one_answered
run-Given_example = run-Given 300 one_answered 0 approved given_example refl

question_settled_example :
    (a : Answer String) × (answers_on
        (open_question "b" 25 pay after_first).1.ch
        (expire
          (open_question "b" 25 pay after_first).1.ch
          (run others (open_question "b" 25 pay after_first).0)).sent
      ≡ a ∷ [])
question_settled_example =
    question_settled 300 first_asked others "b" 25 pay (rw handed others_leave)
