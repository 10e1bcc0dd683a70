-- ===== src/Executor/Tests.antt =====
-- Concrete runs of the executor's indexes and budgets.
use deepaxiom_aura.Base.{
  ◌<◌, ◌≡◌, ◌≢◌, refl, String, Bool, true, false, string_eq, Option, none, some, List, [], ◌∷◌,
  ◌++◌, arith, length, str_eq, str_ne, lookup, insert, if◌then◌else◌,
}
use deepaxiom_aura.Base.Int.{pos}
use deepaxiom_aura.Fifo.{Tracks-empty, push, drop_oldest, adjust}
use deepaxiom_aura.Channel.{Envelope}
use deepaxiom_aura.Executor.Types.{Dest, Live}
use deepaxiom_aura.Executor.Causal.{
  new_causal, new_in_flight, Hop, new_attest, slice_at, bool_at, attest_add, attest_get,
  new_cancelled, add, has,
}
use deepaxiom_aura.Executor.Causal.Bounds.{Causal-Inv, InFlight-Inv, Cancelled-Inv}
use deepaxiom_aura.Executor.Causal.Attest.{Attest-Inv}
use deepaxiom_aura.Executor.Causal.Silence.{Kept, attest_never_silent}
use deepaxiom_aura.Executor.Budget.{ContextLedger}
use deepaxiom_aura.Executor.Speculation.{
  Encoding, SpecKey, SpecIndex, new_spec_index, Json, TextPayload, spec_key_eq, get_state,
  speculate, fold, accumulate, write_state, content_equal, resolve,
}
use deepaxiom_aura.Executor.Speculation.Laws.{Spec-Inv, fold-Inv, speculate-resolve}

a_ne : ◌≢◌ {A = String} "a" ""
unfolding str_eq
a_ne = str_ne _ _ refl

b_ne : ◌≢◌ {A = String} "b" ""
unfolding str_eq
b_ne = str_ne _ _ refl

ab_ne : ◌≢◌ {A = String} "a" "b"
unfolding str_eq
ab_ne = str_ne _ _ refl

causal-Inv : Causal-Inv (new_causal 2)
causal-Inv = record { tracks = Tracks-empty 2; room = omega arith }

in_flight-Inv : InFlight-Inv (new_in_flight 2)
in_flight-Inv = record { tracks = Tracks-empty 2; room = omega arith }

attest-Inv : Attest-Inv (new_attest 2 1)
unfolding slice_at bool_at lookup
attest-Inv = record {
  tracks = Tracks-empty 2;
  room = omega arith;
  room_per_root = omega arith;
  few = λ r. omega arith;
  once = λ r. tt;
  marked = λ r h. absurd (ground (arith, h));
}

cancelled-Inv : Cancelled-Inv (new_cancelled 2)
cancelled-Inv = record { tracks = Tracks-empty 2; room = omega arith }

abbrev speaker : Live
speaker = record {
  manifest_id = "tts";
  manifest_version = "1";
  manifest_type = "actor";
  capability = "speech.say";
  compensates = none;
}

abbrev to_speaker : Dest
to_speaker = record {
  ref = "tts";
  port = "in";
  gate = "";
  skill = some speaker;
  waived = false;
  schema = "std/text@1";
  qos = "reliable";
  speculative = false;
  deadline_ms = pos 0;
  priority = pos 0;
  from = "llm.out";
}

abbrev hop : Hop
hop = record { to = to_speaker; cause_id = "e1" }

a_abandoned : has (add (new_cancelled 2) "a") "a" ≡ true
unfolding has add push drop_oldest lookup insert str_eq
a_abandoned = refl

one_of_two :
    (rest : List String)
    → (add (new_cancelled 2) "a").order ≡ "a" ∷ rest
    → length (add (new_cancelled 2) "a").order < (add (new_cancelled 2) "a").max
unfolding add push lookup insert str_eq
one_of_two rest h = omega arith

attest_never_silent_example :
    Kept
      (attest_get (new_attest 2 1) "a")
      (attest_get (attest_add (new_attest 2 1) "a" "b") "a")
      "b"
attest_never_silent_example = attest_never_silent (new_attest 2 1) "a" "b" attest-Inv a_ne b_ne

abbrev ledger : ContextLedger
ledger = record { budget = pos 5; consumed = 0 }

abbrev out : Envelope
out = record {
  v = "1";
  id = "e1";
  cause_id = "";
  session = "s";
  node = "llm";
  port = "in";
  seq = 1;
  idem = "i";
  schema = "std/text@1";
  kind = "data";
  payload = 1 ∷ 2 ∷ 3 ∷ 4 ∷ [];
  receipt = "";
  attest = [];
  deadline = pos 0;
  priority = pos 0;
  speculative = false;
}

-- JSON in which every text decodes to itself.
abbrev as_text : String → TextPayload × Bool
as_text s = (record { text = s; final = false }, true)

abbrev of_text : TextPayload → Option String
of_text t = some t.text

abbrev final_of : String → Option (Option Bool)
final_of s = some none

abbrev of_json : Json String → Option String
of_json v = some "{}"

abbrev as_json : String → Option (Json String)
as_json s = none

abbrev texts : Encoding String
texts = record {
  unmarshal_text = as_text;
  marshal_text = of_text;
  unmarshal_final = final_of;
  unmarshal = as_json;
  marshal = of_json;
  json_true = "true";
}

abbrev stream : SpecKey
stream = record { root = "r"; from = "llm.out" }

fresh-Inv : Spec-Inv (new_spec_index 2)
fresh-Inv = record { tracks = Tracks-empty 2; room = omega arith }

abbrev heard : SpecIndex
heard = (fold texts (new_spec_index 2) stream "std/text@1" (some "hel")).0

heard-Inv : Spec-Inv heard
heard-Inv = fold-Inv texts (new_spec_index 2) stream "std/text@1" (some "hel") fresh-Inv

heard_so_far : (get_state heard stream).1.accumulated ≡ some "hel"
unfolding fold get_state write_state accumulate adjust push drop_oldest lookup insert str_eq
heard_so_far = refl

speculate-resolve_example :
    let (folded, running) =
      fold texts (speculate heard stream "e2") stream "std/text@1" (some "lo") in
    let same = content_equal texts (some "hel") running in
    let (after, hit, stale) = resolve texts folded stream running in
    (running ≡ accumulate texts "std/text@1" (some "hel") (some "lo"))
    × (hit ≡ same)
    × (stale ≡ (if same then [] else (get_state heard stream).1.deliveries ++ "e2" ∷ []))
    × (lookup stream after.state ≡ none)
speculate-resolve_example =
    speculate-resolve texts heard stream "e2" "std/text@1" "hel" (some "lo") heard-Inv heard_so_far
