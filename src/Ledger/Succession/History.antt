-- ===== src/Ledger/Succession/History.antt =====
-- `BuildKeyTimeline` (kernel/internal/ledger/succession.go) on the rows that an honest node writes.
use mathlib.Core.List.{Permᴰ}
use deepaxiom_aura.Base.{
  ℕ, suc, ◌+◌, ◌-◌, ◌<◌, ◌≢◌, String, true, false, none, some, inl, inr, List, [], ◌∷◌, ◌++◌,
  string_eq, str_eq_iff, beq_refl, beq_ne, length, contains, Distinct, Dict, lookup, ◌≡◌, refl, ap,
  append-nil, append_assoc, sym, ◌∙◌, arith, Option-cases, nat_beq, leb, str_eq,
}
use deepaxiom_aura.Signing.{Crypto}
use deepaxiom_aura.Ledger.Succession.{
  SuccessionRow, SuccessionPayload, KeySegment, WalkBack, max_seq, last_up_to, ascend, start_at,
  step_back, finish_timeline, verify_succession, walk_back, build_key_timeline,
}
use deepaxiom_aura.Ledger.Succession.Index.{find_to, tos, index_by_to-lookup, index_by_to-total}
use deepaxiom_aura.Ledger.Succession.Custody.{AscendsFrom, last_up_to-snoc}
use deepaxiom_aura.Ledger.Succession.Order.{length-perm, Distinct-perm, find_to-perm}

-- Handovers as an honest node makes them, the newest first: the first hands over to `key` before the number
-- `below`, both keys sign, and the outgoing key is none of the `later` ones.
abbrev pub IsHonest :
    Crypto SuccessionPayload → String → ℕ → List String → List SuccessionRow → Type 0
IsHonest crypto key below later [] = Unit
IsHonest crypto key below later (rec ∷ recs) =
    (rec.to_pubkey ≡ key)
    × (verify_succession crypto rec ≡ none)
    × (rec.seq < below)
    × (contains later rec.from_pubkey ≡ false)
    × IsHonest crypto rec.from_pubkey rec.seq (rec.from_pubkey ∷ later) recs

-- The segments of such handovers, put before those of later ones.
unfoldable pub tenures : List SuccessionRow → List KeySegment → List KeySegment
tenures [] segs = segs
tenures (rec ∷ recs) segs =
    tenures recs (record { up_to = rec.seq; pubkey = rec.from_pubkey } ∷ segs)

module _ (crypto : Crypto SuccessionPayload) where
  later_untouched :
      (recs : List SuccessionRow) (key : String) (below : ℕ) (later : List String) (k : String)
      → IsHonest crypto key below later recs
      → contains later k ≡ true
      → (str_eq key k ≡ false)
      → contains (tos recs) k ≡ false
  unfolding tos
  later_untouched [] key below later k honest there other = refl
  later_untouched (rec ∷ recs) key below later k honest there other = ground (
    arith,
    honest.0,
    other,
    str_eq_iff rec.from_pubkey k,
    later_untouched recs rec.from_pubkey rec.seq (rec.from_pubkey ∷ later) k honest.4,
  )

  honest_Distinct :
      (recs : List SuccessionRow) (key : String) (below : ℕ) (earlier : List String)
      → IsHonest crypto key below (key ∷ earlier) recs
      → Distinct (tos recs)
  unfolding tos
  honest_Distinct [] key below earlier honest = tt
  honest_Distinct (rec ∷ recs) key below earlier honest = (
    later_untouched recs rec.from_pubkey rec.seq (rec.from_pubkey ∷ key ∷ earlier) rec.to_pubkey
        honest.4 (ground (arith, honest.0, beq_refl key))
        (ground (
          arith,
          honest.0,
          honest.3,
          str_eq_iff key rec.from_pubkey,
          str_eq_iff rec.from_pubkey key,
          beq_refl key,
        )),
    honest_Distinct recs rec.from_pubkey rec.seq (key ∷ earlier) honest.4,
  )

  ascends_through :
      (recs : List SuccessionRow) (key : String) (later : List String) (seg : KeySegment)
      (segs : List KeySegment)
      → IsHonest crypto key seg.up_to later recs
      → AscendsFrom none (seg ∷ segs)
      → AscendsFrom none (tenures recs (seg ∷ segs))
  unfolding tenures
  ascends_through [] key later seg segs honest up = up
  ascends_through (rec ∷ recs) key later seg segs honest up =
      ascends_through recs rec.from_pubkey (rec.from_pubkey ∷ later)
        (record { up_to = rec.seq; pubkey = rec.from_pubkey }) (seg ∷ segs) honest.4 (honest.2, up)

  -- The walk finds every handover, and stops where they begin.
  walk_back-honest :
      (by_to : Dict String SuccessionRow) (recs : List SuccessionRow) (key : String) (below : ℕ)
      (earlier : List String) (w : WalkBack)
      → IsHonest crypto key below (key ∷ earlier) recs
      → contains earlier key ≡ false
      → ((k : String) → contains earlier k ≡ false → lookup k by_to ≡ find_to k recs)
      → w.current ≡ key
      → w.seen ≡ key ∷ earlier
      → (v : WalkBack) × (walk_back crypto by_to (suc (length recs)) w ≡ inr v)
        × (v.reversed ≡ tenures recs w.reversed)
        × (v.used ≡ w.used + length recs)
  unfolding tenures walk_back find_to
  walk_back-honest by_to [] key below earlier w honest new agree at_key seen =
      let gone : lookup w.current by_to ≡ none = rw at_key (agree key new) in
      (w, rw (walk_back, gone) refl, refl, omega arith)
  walk_back-honest by_to (rec ∷ recs) key below earlier w honest new agree at_key seen =
      let there : lookup w.current by_to ≡ some rec =
        rw at_key (agree key new ∙ ground (arith, honest.0, str_eq_iff rec.to_pubkey key)) in
      let fresh : contains w.seen rec.from_pubkey ≡ false = rw seen honest.3 in
      let (v, run, rev, used) =
        walk_back-honest by_to recs rec.from_pubkey rec.seq (key ∷ earlier) (step_back w rec)
          honest.4 honest.3
          (λ k other.
            ground (arith, other, agree k, honest.0, str_eq_iff key k, str_eq_iff rec.to_pubkey k))
          refl (ap (λ l. rec.from_pubkey ∷ l) seen) in
      (v, rw (walk_back, there, honest.1, fresh) run, rev, omega (arith, used))

ascend-AscendsFrom :
    (segs placed : List KeySegment)
    → AscendsFrom (last_up_to placed) segs
    → ascend placed segs ≡ inr (placed ++ segs)
unfolding ascend
ascend-AscendsFrom [] placed up = rw append-nil refl
ascend-AscendsFrom (seg ∷ segs) placed up = elim (Option-cases (last_up_to placed)) [
  | inl first ↦
      rw (ascend, first)
        (ascend-AscendsFrom segs (placed ++ seg ∷ [])
            (rw (last_up_to-snoc placed seg) (rw first at up))
          ∙ ap inr (append_assoc placed (seg ∷ []) segs))
  | inr (p, there) ↦
      let above = rw there at up in
      let not_at_most : leb seg.up_to p ≡ false = ground (arith, above.0) in
      rw (ascend, there, not_at_most)
        (ascend-AscendsFrom segs (placed ++ seg ∷ []) (rw (last_up_to-snoc placed seg) above.1)
          ∙ ap inr (append_assoc placed (seg ∷ []) segs))
]

length-tenures :
    (recs : List SuccessionRow) (segs : List KeySegment)
    → length (tenures recs segs) ≡ length recs + length segs
unfolding tenures
length-tenures [] segs = omega arith
length-tenures (rec ∷ recs) segs = omega (arith, length-tenures recs _)

finish_honest :
    (total : ℕ) (v : WalkBack) (segs : List KeySegment)
    → v.used ≡ total
    → v.reversed ≡ segs
    → AscendsFrom none segs
    → length segs ≡ total + 1
    → finish_timeline total v ≡ inr (record { segments = segs; rotations = total })
unfolding finish_timeline last_up_to
finish_honest total v segs used rev up long =
    let all : nat_beq v.used total ≡ true = ground (arith, used) in
    let turns : length segs - 1 ≡ total = omega (arith, long) in
    rw (all, rev, ascend-AscendsFrom segs [] up, turns) refl

-- For a chain of handovers with ascending numbers below the largest uint64, each signed by both of
-- its keys and each from a key that holds no later tenure, build_key_timeline gives, for the newest
-- key, which is not empty, and the rows in whatever order, exactly the tenures of that chain.
pub honest_history_told :
    (crypto : Crypto SuccessionPayload) (trusted : String) (recs rows : List SuccessionRow)
    → trusted ≢ ""
    → IsHonest crypto trusted max_seq (trusted ∷ []) recs
    → Permᴰ recs rows
    → build_key_timeline crypto rows trusted
      ≡ inr (record {
        segments = tenures recs (record { up_to = max_seq; pubkey = trusted } ∷ []);
        rotations = length recs;
      })
unfolding build_key_timeline lookup tenures
honest_history_told crypto trusted [] rows named honest p =
    let none_there : nat_beq (length rows) 0 ≡ true = ground (arith, length-perm p) in
    rw (beq_ne trusted "" named, none_there) refl
honest_history_told crypto trusted (rec ∷ recs) rows named honest p =
    let d = honest_Distinct crypto (rec ∷ recs) trusted max_seq [] honest in
    let (by_to, good) = index_by_to-total rows [] (Distinct-perm p d) (λ k there. refl) in
    let (v, run, rev, used) =
      walk_back-honest crypto by_to (rec ∷ recs) trusted max_seq [] (start_at trusted) honest refl
        (λ k other. index_by_to-lookup [] by_to rows good k ∙ sym (find_to-perm k p d)) refl refl in
    let up =
      ascends_through crypto (rec ∷ recs) trusted (trusted ∷ [])
        (record { up_to = max_seq; pubkey = trusted }) [] honest tt in
    let as_many : length rows ≡ length (rec ∷ recs) = sym (length-perm p) in
    let some_there : nat_beq (length rows) 0 ≡ false = ground (arith, length-perm p) in
    let rounds : length rows + 1 ≡ suc (length (rec ∷ recs)) = omega (arith, as_many) in
    rw (beq_ne trusted "" named, some_there, good, rounds, run, as_many)
      (finish_honest (length (rec ∷ recs)) v _ (omega (arith, used)) rev up
        (length-tenures (rec ∷ recs) (record { up_to = max_seq; pubkey = trusted } ∷ [])))
