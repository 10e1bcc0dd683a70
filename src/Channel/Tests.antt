-- ===== src/Channel/Tests.antt =====
-- Concrete runs of the envelope's validation and of the deduplicator.
use deepaxiom_aura.Base.{
  ◌<◌, ◌≡◌, ◌≢◌, refl, String, true, false, [], ◌∷◌, arith, length, str_eq, str_ne, lookup,
}
use deepaxiom_aura.Base.Int.{pos}
use deepaxiom_aura.Channel.{Envelope}
use deepaxiom_aura.Channel.Dedup.{new_dedup, seen, see_all, duplicate_in_window, new-Inv}

abbrev hello : Envelope
hello = record {
  v = "1";
  id = "e1";
  cause_id = "";
  session = "s";
  node = "llm";
  port = "in";
  seq = 1;
  idem = "i";
  schema = "std/text@1";
  kind = "data";
  payload = [];
  receipt = "";
  attest = [];
  deadline = pos 0;
  priority = pos 0;
  speculative = false;
}

first_sight : (seen (new_dedup 3) "a").1 ≡ false
unfolding seen new_dedup lookup str_eq
first_sight = refl

not_empty : ◌≢◌ {A = String} "a" ""
unfolding str_eq
not_empty = str_ne _ _ refl

two_more : length {A = String} ("b" ∷ "c" ∷ []) < (new_dedup 3).max
unfolding new_dedup
two_more = omega arith

duplicate_in_window_example :
    (seen (see_all (seen (new_dedup 3) "a").0 ("b" ∷ "c" ∷ [])) "a").1 ≡ true
duplicate_in_window_example =
    duplicate_in_window (new_dedup 3) "a" ("b" ∷ "c" ∷ []) (new-Inv 3 (omega arith)) not_empty
      first_sight two_more
