-- ===== src/Ledger/Succession/Tenure.antt =====
-- Which key is in force at a number (`KeyAt` of kernel/internal/ledger/succession.go).
use deepaxiom_aura.Base.{
  ℕ, zero, suc, ◌≤◌, ◌<◌, String, none, some, inr, List, [], ◌∷◌, ◌≡◌, refl, subst, arith,
  get_elem?,
}
use deepaxiom_aura.Signing.{Crypto}
use deepaxiom_aura.Ledger.Succession.{
  SuccessionRow, SuccessionPayload, KeySegment, KeyTimeline, key_in, key_at, build_key_timeline,
}
use deepaxiom_aura.Ledger.Succession.Custody.{
  AscendsFrom, Handover, Linked, build_key_timeline-Linked,
}

above_low :
    (segs : List KeySegment) (low i : ℕ) (seg : KeySegment)
    → AscendsFrom (some low) segs
    → get_elem? segs i ≡ some seg
    → low < seg.up_to
above_low [] low i seg up there = absurd (ground (arith, there))
above_low (s ∷ segs) low zero seg up there = ground (arith, there, up.0)
above_low (s ∷ segs) low (suc i) seg up there =
    omega (arith, up.0, above_low segs s.up_to i seg up.1 there)

key_in-first :
    (seg : KeySegment) (segs : List KeySegment) (n : ℕ)
    → n ≤ seg.up_to
    → key_in (seg ∷ segs) n ≡ seg.pubkey
unfolding key_in
key_in-first seg [] n h = refl
key_in-first seg (t ∷ segs) n h = ground arith

key_in-tenure :
    (segs : List KeySegment) (i n : ℕ) (older newer : KeySegment)
    → AscendsFrom none segs
    → get_elem? segs i ≡ some older
    → get_elem? segs (suc i) ≡ some newer
    → older.up_to < n
    → n ≤ newer.up_to
    → key_in segs n ≡ newer.pubkey
unfolding key_in
key_in-tenure [] i n older newer up there next lo hi = absurd (ground (arith, there))
key_in-tenure (s ∷ []) i n older newer up there next lo hi = absurd (ground (arith, next))
key_in-tenure (s ∷ t ∷ segs) zero n older newer up there next lo hi =
    ground (arith, key_in-first t segs n)
key_in-tenure (s ∷ t ∷ segs) (suc i) n older newer up there next lo hi = ground (
  arith,
  above_low (t ∷ segs) s.up_to i older up there,
  key_in-tenure (t ∷ segs) i n older newer up.1 there next lo hi,
)

key_in-own :
    (segs : List KeySegment) (i : ℕ) (seg : KeySegment)
    → AscendsFrom none segs
    → get_elem? segs i ≡ some seg
    → key_in segs seg.up_to ≡ seg.pubkey
unfolding key_in
key_in-own [] i seg up there = absurd (ground (arith, there))
key_in-own (s ∷ segs) zero seg up there = ground (arith, there, key_in-first s segs s.up_to)
key_in-own (s ∷ []) (suc i) seg up there = absurd (ground (arith, there))
key_in-own (s ∷ t ∷ segs) (suc i) seg up there =
    ground
      (arith, above_low (t ∷ segs) s.up_to i seg up there, key_in-own (t ∷ segs) i seg up.1 there)

Linked-Handover :
    (crypto : Crypto SuccessionPayload) (rows : List SuccessionRow) (trusted : String)
    (segs : List KeySegment) (i : ℕ) (older newer : KeySegment)
    → Linked crypto rows trusted segs
    → get_elem? segs i ≡ some older
    → get_elem? segs (suc i) ≡ some newer
    → Handover crypto rows older newer
Linked-Handover crypto rows trusted [] i older newer l there next = absurd l
Linked-Handover crypto rows trusted (s ∷ []) i older newer l there next =
    absurd (ground (arith, next))
Linked-Handover crypto rows trusted (s ∷ t ∷ segs) zero older newer l there next =
    let first : s ≡ older = ground (arith, there) in
    let second : t ≡ newer = ground (arith, next) in
    subst (λ x. Handover crypto rows x newer) first (subst (Handover crypto rows s) second l.0)
Linked-Handover crypto rows trusted (s ∷ t ∷ segs) (suc i) older newer l there next =
    Linked-Handover crypto rows trusted (t ∷ segs) i older newer l.1 there next

-- In a timeline that build_key_timeline gives, two neighbouring segments are joined by a handover
-- that verifies; at its number the outgoing key is still in force, and the incoming one is at every
-- later number up to the end of its own tenure.
pub tenure_takes_effect :
    (crypto : Crypto SuccessionPayload) (rows : List SuccessionRow) (trusted : String)
    (t : KeyTimeline) (i n : ℕ) (older newer : KeySegment)
    → build_key_timeline crypto rows trusted ≡ inr t
    → get_elem? t.segments i ≡ some older
    → get_elem? t.segments (suc i) ≡ some newer
    → older.up_to < n
    → n ≤ newer.up_to
    → Handover crypto rows older newer
      × (key_at t older.up_to ≡ older.pubkey)
      × (key_at t n ≡ newer.pubkey)
unfolding key_at
tenure_takes_effect crypto rows trusted t i n older newer built there next lo hi =
    let vouched = build_key_timeline-Linked crypto rows trusted t built in
    (
      Linked-Handover crypto rows trusted t.segments i older newer vouched.0 there next,
      key_in-own t.segments i older vouched.1 there,
      key_in-tenure t.segments i n older newer vouched.1 there next lo hi,
    )
