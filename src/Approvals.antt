-- ===== src/Approvals.antt =====
-- Pending approvals (kernel/internal/approvals/approvals.go): the questions that wait for a person, each
-- with the channel on which its caller waits. A channel is a number; `sent` keeps what went on each, the
-- latest first. `timers` are those that `time.AfterFunc` armed and nothing stopped, by their channels.
-- The operator's signed statement is a parameter; times are nanoseconds.
pub mod Once
pub mod Settled
pub mod Given
pub mod Listed
mod Tests
use deepaxiom_aura.Base.{
  ℕ, ◌+◌, ◌*◌, String, Bool, false, Option, none, some, List, [], ◌∷◌, ◌==◌, string_eq, nat_eq,
  if◌then◌else◌, ltb, Dict, lookup, insert, erase, map,
}

-- 5 minutes
abbrev pub default_ttl : ℕ
default_ttl = 5 * 60 * 1000000000

pub record Pending : Type 0 where
  pub id : String
  pub question : String
  pub origin : String
  pub tool : String
  pub capability : String
  pub session : String
  pub arguments : String
  pub requested : ℕ
  pub expires : ℕ
  pub node : String
  pub envelope : String
  pub context_required : List String

pub record Answer (Approval : Type 0) : Type 0 where
  pub approve : Bool
  pub approval : Option Approval

pub record Waiter : Type 0 where
  pub p : Pending
  pub ch : ℕ

pub record Registry (Approval : Type 0) : Type 0 where
  pub items : Dict String Waiter
  pub ttl : ℕ
  pub required : List String
  pub timers : Dict ℕ String
  pub made : ℕ
  pub sent : List (ℕ × Answer Approval)

-- What the caller holds while it waits: the release function stops its timer and drops the question.
pub record Handle : Type 0 where
  pub id : String
  pub ch : ℕ

pub data ResolveError : Type 0 where
  no_pending : String → ResolveError

-- The id of a question: its own, or the one that `channel.NewID` made.
unfoldable pub question_id : String → Pending → String
question_id new_id p = if p.id == "" then new_id else p.id

module _ {Approval : Type 0} where
  unfoldable pub with_ttl : ℕ → Registry Approval
  with_ttl d = record { items = []; ttl = d; required = []; timers = []; made = 0; sent = [] }

  unfoldable pub new : Registry Approval
  new = with_ttl default_ttl

  unfoldable pub require : List String → Registry Approval → Registry Approval
  require labels r = record r { required = labels }

  unfoldable pub denial : Answer Approval
  denial = record { approve = false; approval = none }

  unfoldable pub open_question :
      String → ℕ → Pending → Registry Approval → Registry Approval × Handle
  open_question new_id now p r =
      let key : String = question_id new_id p in
      let parked : Pending = record p {
        id = key;
        requested = now;
        expires = now + r.ttl;
        context_required = r.required;
      } in
      (
        record r {
          items = insert key (record { p = parked; ch = r.made }) r.items;
          timers = insert r.made key r.timers;
          made = r.made + 1;
        },
        record { id = key; ch = r.made },
      )

  unfoldable pub resolve_question :
      String → Answer Approval → Registry Approval → Registry Approval × Option ResolveError
  resolve_question id a r = elim (lookup id r.items) [
    | none ↦ (r, some (no_pending id))
    | some w ↦ (record r { items = erase id r.items; sent = (w.ch, a) ∷ r.sent }, none)
  ]

  -- The function that `Open` returns.
  unfoldable pub release : Handle → Registry Approval → Registry Approval
  release h r = record r { items = erase h.id r.items; timers = erase h.ch r.timers }

  -- The timer of a channel goes off, where it is still armed.
  unfoldable pub expire : ℕ → Registry Approval → Registry Approval
  expire ch r = elim (lookup ch r.timers) [
    | none ↦ r
    | some id ↦ (resolve_question id denial (record r { timers = erase ch r.timers })).0
  ]

  unfoldable pub get_question : String → Registry Approval → Option Pending
  get_question id r = elim (lookup id r.items) [ none ↦ none | some w ↦ some w.p ]

-- `List` sorts in place: the part before `i` is held with its last question first, so that `out[i]` sinks
-- into it while it was requested before the one next to it.
unfoldable pub sink : Pending → List Pending → List Pending
sink p [] = p ∷ []
sink p (q ∷ later) =
    let rest = sink p later in if ltb p.requested q.requested then q ∷ rest else p ∷ q ∷ later

unfoldable pub sink_all : List Pending → List Pending → List Pending
sink_all done [] = done
sink_all done (p ∷ out) = sink_all (sink p done) out

unfoldable pub turn_over : List Pending → List Pending → List Pending
turn_over done [] = done
turn_over done (p ∷ rest) = turn_over (p ∷ done) rest

unfoldable pub waiting : {Approval : Type 0} → Registry Approval → List Pending
waiting r = map (λ item. item.1.p) r.items

unfoldable pub list_questions : {Approval : Type 0} → Registry Approval → List Pending
list_questions r = turn_over [] (sink_all [] (waiting r))

-- What happens to a registry, in the order in which its lock is taken.
pub data Step (Approval : Type 0) : Type 0 where
  opened : String → ℕ → Pending → Step Approval
  answered : String → Answer Approval → Step Approval
  released : Handle → Step Approval
  expired : ℕ → Step Approval

module _ {Approval : Type 0} where
  unfoldable pub step : Step Approval → Registry Approval → Registry Approval
  step (opened new_id now p) r = (open_question new_id now p r).0
  step (answered id a) r = (resolve_question id a r).0
  step (released h) r = release h r
  step (expired ch) r = expire ch r

  unfoldable pub run : List (Step Approval) → Registry Approval → Registry Approval
  run [] r = r
  run (s ∷ steps) r = run steps (step s r)

  -- What the caller of a channel receives, the latest first.
  unfoldable pub answers_on : ℕ → List (ℕ × Answer Approval) → List (Answer Approval)
  answers_on ch [] = []
  answers_on ch ((c, a) ∷ rest) =
      let others = answers_on ch rest in if c == ch then a ∷ others else others
