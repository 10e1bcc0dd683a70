-- ===== src/Ledger/Succession/Custody.antt =====
-- What `BuildKeyTimeline` (kernel/internal/ledger/succession.go) vouches for when it gives a timeline.
use mathlib.Core.List.{Memᴰ}
use deepaxiom_aura.Base.{
  ℕ, zero, suc, ◌+◌, ◌<◌, String, Option, none, some, inl, inr, List, [], ◌∷◌, ◌++◌, ◌==◌,
  string_eq, leb, nat_beq, length, contains, Dict, lookup, ◌≡◌, refl, sym, ◌∙◌, subst, arith,
  Bool-cases, Option-cases, Sum-cases, append_assoc, append-nil,
}
use deepaxiom_aura.Signing.{Crypto}
use deepaxiom_aura.Ledger.Succession.{
  SuccessionRow, SuccessionPayload, KeySegment, KeyTimeline, WalkBack, max_seq, last_up_to, ascend,
  index_by_to, start_at, step_back, finish_timeline, verify_succession, walk_back,
  build_key_timeline,
}
use deepaxiom_aura.Ledger.Succession.Index.{find_to, find_to_sound, index_by_to-lookup}

-- Each tenure ends after the one before it, the first after `low` where there is one.
abbrev pub AscendsFrom : Option ℕ → List KeySegment → Type 0
AscendsFrom low [] = Unit
AscendsFrom none (seg ∷ segs) = AscendsFrom (some seg.up_to) segs
AscendsFrom (some p) (seg ∷ segs) = (p < seg.up_to) × AscendsFrom (some seg.up_to) segs

pub last_up_to-snoc :
    (segs : List KeySegment) (seg : KeySegment) → last_up_to (segs ++ seg ∷ []) ≡ some seg.up_to
unfolding last_up_to
last_up_to-snoc [] seg = refl
last_up_to-snoc (x ∷ []) seg = refl
last_up_to-snoc (x ∷ y ∷ segs) seg = last_up_to-snoc (y ∷ segs) seg

pub ascend_sound :
    (segs placed out : List KeySegment)
    → ascend placed segs ≡ inr out
    → (out ≡ placed ++ segs) × AscendsFrom (last_up_to placed) segs
unfolding ascend
ascend_sound [] placed out h = (ground (arith, h, append-nil placed), tt)
ascend_sound (seg ∷ segs) placed out h = elim (Option-cases (last_up_to placed)) [
  | inl first ↦
      let (same, up) = ascend_sound segs (placed ++ seg ∷ []) out (rw (ascend, first) at h) in
      (same ∙ append_assoc placed (seg ∷ []) segs, rw (first, ← last_up_to-snoc placed seg) up)
  | inr (p, there) ↦ elim (Bool-cases (leb seg.up_to p)) [
    | inl low ↦ absurd (ground (arith, rw (ascend, there) at h, low))
    | inr high ↦
        let (same, up) =
          ascend_sound segs (placed ++ seg ∷ []) out (rw (ascend, there, high) at h) in
        (
          same ∙ append_assoc placed (seg ∷ []) segs,
          rw there (ground (arith, high), rw (last_up_to-snoc placed seg) at up),
        )
  ]
]

module _ (crypto : Crypto SuccessionPayload) (rows : List SuccessionRow) where
  -- A row by which the older key handed over to the newer one where its tenure ends, signed by both.
  abbrev pub Handover : KeySegment → KeySegment → Type 0
  Handover older newer =
      (rec : SuccessionRow) × Memᴰ rec rows
      × (verify_succession crypto rec ≡ none)
      × (older ≡ record { up_to = rec.seq; pubkey = rec.from_pubkey })
      × (newer.pubkey ≡ rec.to_pubkey)

  -- Handovers lead from each segment to the next, and the last is the trusted key without an end.
  abbrev pub Linked : String → List KeySegment → Type 0
  Linked trusted [] = ⊥
  Linked trusted (seg ∷ []) = seg ≡ record { up_to = max_seq; pubkey = trusted }
  Linked trusted (older ∷ newer ∷ segs) = Handover older newer × Linked trusted (newer ∷ segs)

-- What a timeline that is given promises of the rows and of the trusted key.
abbrev pub IsVouched : Crypto SuccessionPayload → List SuccessionRow → String → KeyTimeline → Type 0
IsVouched crypto rows trusted t =
    Linked crypto rows trusted t.segments
    × AscendsFrom none t.segments
    × (length t.segments ≡ t.rotations + 1)
    × (t.rotations ≡ length rows)

abbrev pub oldest_key : List KeySegment → String
oldest_key [] = ""
oldest_key (seg ∷ segs) = seg.pubkey

-- What the walk back keeps.
abbrev WalkInv : Crypto SuccessionPayload → List SuccessionRow → String → WalkBack → Type 0
WalkInv crypto rows trusted w =
    Linked crypto rows trusted w.reversed
    × (oldest_key w.reversed ≡ w.current)
    × (length w.reversed ≡ w.used + 1)

module _ (crypto : Crypto SuccessionPayload) (rows : List SuccessionRow) (trusted : String) where
  step_back-Linked :
      (segs : List KeySegment) (rec : SuccessionRow)
      → Linked crypto rows trusted segs
      → Memᴰ rec rows
      → verify_succession crypto rec ≡ none
      → oldest_key segs ≡ rec.to_pubkey
      → Linked crypto rows trusted (record { up_to = rec.seq; pubkey = rec.from_pubkey } ∷ segs)
  step_back-Linked [] rec linked m ok same = absurd linked
  step_back-Linked (seg ∷ segs) rec linked m ok same = ((rec, m, ok, refl, same), linked)

  walk_back-Inv :
      (by_to : Dict String SuccessionRow)
      → ((k : String) → lookup k by_to ≡ find_to k rows)
      → (rounds : ℕ) (w v : WalkBack) → WalkInv crypto rows trusted w
      → walk_back crypto by_to rounds w ≡ inr v
      → WalkInv crypto rows trusted v
  unfolding walk_back
  walk_back-Inv by_to agree zero w v inv h =
      let same : w ≡ v = ground (arith, h) in subst (WalkInv crypto rows trusted) same inv
  walk_back-Inv by_to agree (suc rounds) w v inv h = elim (Option-cases (lookup w.current by_to)) [
    | inl gone ↦
        let same : w ≡ v = ground (arith, rw (walk_back, gone) at h) in
        subst (WalkInv crypto rows trusted) same inv
    | inr (rec, there) ↦ elim (Option-cases (verify_succession crypto rec)) [
      | inr (err, bad) ↦ absurd (ground (arith, rw (walk_back, there, bad) at h))
      | inl ok ↦ elim (Bool-cases (contains w.seen rec.from_pubkey)) [
        | inl again ↦ absurd (ground (arith, rw (walk_back, there, ok, again) at h))
        | inr new ↦
            let (m, same) = find_to_sound w.current rows rec (sym (agree w.current) ∙ there) in
            walk_back-Inv by_to agree rounds (step_back w rec) v
              (
                step_back-Linked w.reversed rec inv.0 m ok (inv.1 ∙ sym same),
                refl,
                ground (arith, inv.2),
              )
              (rw (walk_back, there, ok, new) at h)
      ]
    ]
  ]

  finish_timeline_sound :
      (w : WalkBack) (t : KeyTimeline)
      → WalkInv crypto rows trusted w
      → finish_timeline (length rows) w ≡ inr t
      → IsVouched crypto rows trusted t
  unfolding finish_timeline last_up_to
  finish_timeline_sound w t inv h = elim (Bool-cases (nat_beq w.used (length rows))) [
    | inr short ↦ absurd (ground (arith, rw (finish_timeline, short) at h))
    | inl all ↦ elim (Sum-cases (ascend [] w.reversed)) [
      | inl (err, bad) ↦ absurd (ground (arith, rw (finish_timeline, all, bad) at h))
      | inr (segments, good) ↦
          let done = rw (finish_timeline, all, good) at h in
          let (whole, up) = ascend_sound w.reversed [] segments good in
          let same : w.reversed ≡ t.segments = ground (arith, done, whole) in
          (
            subst (Linked crypto rows trusted) same inv.0,
            subst (AscendsFrom none) same up,
            ground (arith, inv.2, done, whole),
            ground (arith, inv.2, done, whole, all),
          )
    ]
  ]

  -- Where build_key_timeline gives a timeline, its segments end at ascending numbers, the last is
  -- the trusted key and never ends, each hands over to the next by a row that verifies under both
  -- keys, and there are as many rotations as rows.
  pub build_key_timeline-Linked :
      (t : KeyTimeline)
      → build_key_timeline crypto rows trusted ≡ inr t
      → IsVouched crypto rows trusted t
  unfolding build_key_timeline lookup
  build_key_timeline-Linked t h = elim (Bool-cases (trusted == "")) [
    | inl empty ↦ absurd (ground (arith, rw (build_key_timeline, empty) at h))
    | inr named ↦ elim (Bool-cases (nat_beq (length rows) 0)) [
      | inl alone ↦
          let lone : KeyTimeline = record {
            segments = record { up_to = max_seq; pubkey = trusted } ∷ [];
            rotations = 0;
          } in
          let same : lone ≡ t = ground (arith, rw (build_key_timeline, named, alone) at h) in
          subst (IsVouched crypto rows trusted) same (refl, tt, refl, ground (arith, alone))
      | inr some_rows ↦ elim (Sum-cases (index_by_to [] rows)) [
        | inl (err, bad) ↦
            absurd (ground (arith, rw (build_key_timeline, named, some_rows, bad) at h))
        | inr (by_to, good) ↦
            elim (Sum-cases (walk_back crypto by_to (length rows + 1) (start_at trusted))) [
              | inl (err, bad) ↦
                  absurd (ground (arith, rw (build_key_timeline, named, some_rows, good, bad) at h))
              | inr (w, arrived) ↦
                  finish_timeline_sound w t
                    (walk_back-Inv by_to (λ k. index_by_to-lookup [] by_to rows good k)
                      (length rows + 1) (start_at trusted) w (refl, refl, refl) arrived)
                    (rw (build_key_timeline, named, some_rows, good, arrived) at h)
            ]
      ]
    ]
  ]
