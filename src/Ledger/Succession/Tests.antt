-- ===== src/Ledger/Succession/Tests.antt =====
-- Concrete runs of key succession.
use mathlib.Core.List.Permᴰ.{swap}
use deepaxiom_aura.Base.{
  ℕ, ◌≡◌, refl, String, some, none, inl, inr, [], ◌∷◌, ◌==◌, string_eq, str_eq, arith, contains,
  false, lookup, insert, ◌≢◌, str_ne,
}
use deepaxiom_aura.Signing.{Crypto, verify}
use deepaxiom_aura.Ledger.Succession.{
  SuccessionRow, SuccessionPayload, KeySegment, KeyTimeline, max_seq, key_at, last_up_to, ascend,
  index_by_to, finish_timeline, verify_succession, walk_back, build_key_timeline, cycle_at,
  custody_forks, unreachable,
}
use deepaxiom_aura.Ledger.Succession.Custody.{IsVouched, Handover, build_key_timeline-Linked}
use deepaxiom_aura.Ledger.Succession.Tenure.{tenure_takes_effect}
use deepaxiom_aura.Ledger.Succession.History.{tenures, honest_history_told}

-- A signature is the name of its key.
abbrev toy_crypto : Crypto SuccessionPayload
toy_crypto = record { decode = some; bytes = λ key. 32; ed25519_ok = λ key text sig. key == sig }

abbrev hand_over : ℕ → String → String → SuccessionRow
hand_over seq old new = record {
  seq = seq;
  from_pubkey = old;
  from_sig = old;
  to_pubkey = new;
  to_sig = new;
  reason = "";
  ts = 0;
}

abbrev first_turn : SuccessionRow
first_turn = hand_over 2 "a" "b"

abbrev second_turn : SuccessionRow
second_turn = hand_over 4 "b" "c"

abbrev oldest : KeySegment
oldest = record { up_to = 2; pubkey = "a" }

abbrev middle : KeySegment
middle = record { up_to = 4; pubkey = "b" }

abbrev newest : KeySegment
newest = record { up_to = max_seq; pubkey = "c" }

abbrev turned_twice : KeyTimeline
turned_twice = record { segments = oldest ∷ middle ∷ newest ∷ []; rotations = 2 }

built : build_key_timeline toy_crypto (first_turn ∷ second_turn ∷ []) "c" ≡ inr turned_twice
unfolding str_eq lookup insert verify verify_succession index_by_to walk_back ascend last_up_to
    finish_timeline build_key_timeline
built = refl

fork_refused :
    build_key_timeline toy_crypto (first_turn ∷ hand_over 3 "x" "b" ∷ []) "b"
    ≡ inl (custody_forks "b" 2 3)
unfolding str_eq lookup insert index_by_to build_key_timeline
fork_refused = refl

cycle_refused :
    build_key_timeline toy_crypto (first_turn ∷ hand_over 4 "b" "a" ∷ []) "a" ≡ inl (cycle_at "a")
unfolding str_eq lookup insert verify verify_succession index_by_to walk_back build_key_timeline
cycle_refused = refl

stray_refused : build_key_timeline toy_crypto (second_turn ∷ []) "b" ≡ inl (unreachable 1)
unfolding str_eq lookup insert verify verify_succession index_by_to walk_back finish_timeline
    build_key_timeline
stray_refused = refl

build_key_timeline-Linked_example :
    IsVouched toy_crypto (first_turn ∷ second_turn ∷ []) "c" turned_twice
build_key_timeline-Linked_example =
    build_key_timeline-Linked toy_crypto (first_turn ∷ second_turn ∷ []) "c" turned_twice built

tenure_takes_effect_example :
    Handover toy_crypto (first_turn ∷ second_turn ∷ []) oldest middle
    × (key_at turned_twice 2 ≡ "a")
    × (key_at turned_twice 3 ≡ "b")
tenure_takes_effect_example =
    tenure_takes_effect toy_crypto (first_turn ∷ second_turn ∷ []) "c" turned_twice 0 3 oldest
      middle built refl refl (omega arith) (omega arith)

signed_both :
    (verify_succession toy_crypto second_turn ≡ none)
    × (verify_succession toy_crypto first_turn ≡ none)
unfolding str_eq verify verify_succession
signed_both = (refl, refl)

named : ◌≢◌ {A = String} "c" ""
unfolding str_eq
named = str_ne "c" "" refl

new_keys :
    (contains {A = String} ("c" ∷ []) "b" ≡ false)
    × (contains {A = String} ("b" ∷ "c" ∷ []) "a" ≡ false)
unfolding str_eq
new_keys = (refl, refl)

honest_history_told_example :
    build_key_timeline toy_crypto (first_turn ∷ second_turn ∷ []) "c"
    ≡ inr
        (record { segments = tenures (second_turn ∷ first_turn ∷ []) (newest ∷ []); rotations = 2 })
honest_history_told_example =
    honest_history_told toy_crypto "c" (second_turn ∷ first_turn ∷ [])
      (first_turn ∷ second_turn ∷ []) named
      (
        refl,
        signed_both.0,
        omega arith,
        new_keys.0,
        (refl, signed_both.1, omega arith, new_keys.1, tt),
      )
      (swap refl refl)
