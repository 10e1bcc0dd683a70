-- ===== src/Ledger/Merkle/Inclusion/Rebuild.antt =====
-- The verifier's walk along an audit path ends at the head the path is of.
use deepaxiom_aura.Base.{
  ℕ, suc, ◌+◌, ◌-◌, ◌*◌, ◌/◌, ◌<◌, ◌≤◌, ◌≡◌, refl, ap, sym, ◌∙◌, inl, inr, Bool-cases, ltb, some,
  List, pow2, pow2_gt, pow2_next, pow2_gap, arith,
}
use deepaxiom_aura.Ledger.Merkle.{absorb_all}
use deepaxiom_aura.Ledger.Merkle.Inclusion.{Audit, one, left, right}
use deepaxiom_aura.Ledger.Merkle.Inclusion.Walks.{at, step_even, step_odd, step_edge, absorb_step}

-- n counted from p·B: the quotient by p doubles one level down, and the rest says which half.
halve :
    (low p B : ℕ)
    → low < 2 * p
    → (low' : ℕ) × (B' : ℕ) × (low + 2 * p * B ≡ low' + p * B') × (low' < p) × (B' / 2 ≡ B)
halve low p B h = elim (Bool-cases (ltb low p)) [
  | inl e ↦ (low, 2 * B, ground arith, ground arith, ground arith)
  | inr e ↦ (low - p, 2 * B + 1, ground arith, ground arith, ground arith)
]

gap_times : (m d h a : ℕ) → pow2 h ≡ 2 * pow2 m * pow2 d → pow2 h * a ≡ pow2 m * (2 * (pow2 d * a))
gap_times m d h a e = ap (λ (t : ℕ). t * a) e ∙ ground arith

half_odd : (A : ℕ) → (2 * A + 1) / 2 ≡ A
half_odd A = omega arith

twice : (x p A : ℕ) → x ≡ 2 * p → x * A ≡ p * (2 * A)
twice x p A e = ap (λ (t : ℕ). t * A) e ∙ ground arith

once : (x A : ℕ) → x ≡ 1 → x * A ≡ A
once x A e = ap (λ (t : ℕ). t * A) e ∙ omega arith

alone : (m : ℕ) → 1 ≡ pow2 m → m ≡ 0
alone m e = omega (arith, pow2_gt m)

module _ {Hash : Type 0} (interior : Hash → Hash → Hash) (empty_root : Hash) (leaf : Hash) where
  inner :
      {n i : ℕ} {q : List Hash} {c : Hash}
      → Audit interior leaf n i q c
      → (m A B low fn sn : ℕ) → n ≡ pow2 m
      → fn ≡ i + pow2 m * A
      → sn ≡ low + pow2 m * B
      → low < pow2 m
      → A < B
      → absorb_all interior empty_root (at interior empty_root fn sn leaf) q
        ≡ some (at interior empty_root A B c)
  unfolding absorb_all
  inner (one n1 i0) m A B low fn sn en ef es lt ab =
      let m0 : m ≡ 0 = alone m (sym n1 ∙ en) in
      let p1 : pow2 m ≡ 1 = ap pow2 m0 in
      let fA : fn ≡ A = omega (arith, once (pow2 m) A p1) in
      let sB : sn ≡ B = omega (arith, once (pow2 m) B p1) in rw (fA, sB) refl
  inner (left k s lo hi il wh sub) m A B low fn sn en ef es lt ab =
      let next : m ≡ suc k = pow2_next k m (omega (arith, lo)) (omega (arith, hi)) in
      let two : pow2 m ≡ 2 * pow2 k = ap pow2 next in
      let (low', B', eB, ltB, half) = halve low (pow2 k) B (omega (arith, two)) in
      let below =
        inner sub k (2 * A) B' low' fn sn refl (omega (arith, twice (pow2 m) (pow2 k) A two))
          (es ∙ omega (arith, twice (pow2 m) (pow2 k) B two)) ltB (omega arith) in
      absorb_step interior empty_root _ _ _ _ _ s wh below
        (step_even interior empty_root A B' _ s (omega arith) ∙ rw half refl)
  inner (right k s lo hi ig il wh sub) m A B low fn sn en ef es lt ab =
      let next : m ≡ suc k = pow2_next k m (omega (arith, lo)) (omega (arith, hi)) in
      let two : pow2 m ≡ 2 * pow2 k = ap pow2 next in
      let (low', B', eB, ltB, half) = halve low (pow2 k) B (omega (arith, two)) in
      let below =
        inner sub k (2 * A + 1) B' low' fn sn (omega (arith, two))
          (omega (arith, twice (pow2 m) (pow2 k) A two))
          (es ∙ omega (arith, twice (pow2 m) (pow2 k) B two)) ltB (omega arith) in
      absorb_step interior empty_root _ _ _ _ _ s wh below
        (step_odd interior empty_root A B' _ s (omega arith) ∙ rw half refl)

  -- Along the right edge of the tree, where the index and the last index are on one path, shifts of
  -- zeros come first: up to those zeros the walk ends where the tree does.
  pub edge :
      {n i : ℕ} {q : List Hash} {c : Hash}
      → Audit interior leaf n i q c
      → (h a fn sn : ℕ) → n ≤ pow2 h
      → fn ≡ i + pow2 h * a
      → sn ≡ n - 1 + pow2 h * a
      → (t : ℕ) × (absorb_all interior empty_root (at interior empty_root fn sn leaf) q
          ≡ some (at interior empty_root (pow2 t * a) (pow2 t * a) c))
  unfolding absorb_all
  edge (one n1 i0) h a fn sn fit ef es =
      let f : fn ≡ pow2 h * a = omega arith in
      let s : sn ≡ pow2 h * a = omega arith in (h, rw (f, s) refl)
  edge {n = n} (left k s lo hi il wh sub) h a fn sn fit ef es =
      let (d, gap) = pow2_gap k h _ lo fit in
      let A = pow2 d * a in
      let far = gap_times k d h a gap in
      let below =
        inner sub k (2 * A) (2 * A + 1) (n - 1 - pow2 k) fn sn refl (omega (arith, far))
          (omega (arith, far)) (omega arith) (omega arith) in
      (
        d,
        absorb_step interior empty_root _ _ _ _ _ s wh below
            (step_even interior empty_root A (2 * A + 1) _ s (omega arith) ∙ rw (half_odd A) refl),
      )
  edge (right k s lo hi ig il wh sub) h a fn sn fit ef es =
      let (d, gap) = pow2_gap k h _ lo fit in
      let A = pow2 d * a in
      let far = gap_times k d h a gap in
      let (t, below) =
        edge sub k (2 * A + 1) fn sn (omega arith) (omega (arith, far)) (omega (arith, far)) in
      (
        d,
        absorb_step interior empty_root _ _ _ _ _ s wh below
            (step_edge interior empty_root t A _ s),
      )
