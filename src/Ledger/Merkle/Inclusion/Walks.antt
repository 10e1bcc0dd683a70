-- ===== src/Ledger/Merkle/Inclusion/Walks.antt =====
-- The bottom-up walk of `VerifyInclusion`, driven by the bits of the index, rebuilds what the audit
-- path says from the top down.
use deepaxiom_aura.Base.{
  ℕ, zero, suc, ◌+◌, ◌*◌, ◌/◌, ◌<◌, ◌≤◌, ◌≡◌, refl, inl, inr, true, false, Option, Option-cases,
  none, some, List, [], ◌∷◌, ◌++◌, pow2, pow2_pos, pow2_gt, arith, odd, nat_beq,
}
use deepaxiom_aura.Ledger.Merkle.{Walk, absorb, absorb_all, strip}

le-mul : (k p : ℕ) → 0 < p → k ≤ p * k
le-mul k p h = grind arith

-- Shifting out t zeros.
strip_zeros :
    (fuel t o : ℕ) → t ≤ fuel → odd o ≡ true → strip fuel (pow2 t * o) (pow2 t * o) ≡ (o, o)
unfolding strip
strip_zeros zero zero o h od = ground arith
strip_zeros (suc fuel) zero o h od = ground arith
strip_zeros zero (suc t) o h od = absurd (omega arith)
strip_zeros (suc fuel) (suc t) o h od =
    let half : pow2 (suc t) * o / 2 ≡ pow2 t * o = ground arith in
    let even : odd (pow2 (suc t) * o) ≡ false = ground arith in
    let some_left : nat_beq (pow2 (suc t) * o) 0 ≡ false =
      ground (arith, pow2_pos t, le-mul o (pow2 t) (pow2_pos t)) in
    rw (some_left, even, half) (strip_zeros fuel t o (omega arith) od)

big : (t a : ℕ) → pow2 t ≤ pow2 t * (2 * a + 1)
big t a = ground arith

module _ {Hash : Type 0} (interior : Hash → Hash → Hash) (empty_root : Hash) where
  abbrev pub at : ℕ → ℕ → Hash → Walk Hash
  at fn sn computed = record { fn = fn; sn = sn; computed = computed }

  pub step_even :
      (a sn : ℕ) (c s : Hash)
      → 2 * a < sn
      → absorb interior empty_root (at (2 * a) sn c) s ≡ some (at a (sn / 2) (interior c s))
  unfolding absorb
  step_even a sn c s h = ground arith

  pub step_odd :
      (a sn : ℕ) (c s : Hash)
      → 2 * a + 1 < sn
      → absorb interior empty_root (at (2 * a + 1) sn c) s ≡ some (at a (sn / 2) (interior s c))
  unfolding absorb strip
  step_odd a sn c s h = ground arith

  pub step_edge :
      (t a : ℕ) (c s : Hash)
      → absorb interior empty_root (at (pow2 t * (2 * a + 1)) (pow2 t * (2 * a + 1)) c) s
        ≡ some (at a a (interior s c))
  unfolding absorb
  step_edge t a c s =
      let o = 2 * a + 1 in
      let x = pow2 t * o in
      let fits : t ≤ x = omega (arith, pow2_gt t, big t a) in
      ground (arith, strip_zeros x t o fits (ground arith), big t a, pow2_pos t)

  pub absorb_last :
      (w w' : Walk Hash) (path : List Hash) (s : Hash)
      → absorb_all interior empty_root w path ≡ some w'
      → absorb_all interior empty_root w (path ++ s ∷ [])
        ≡ absorb_all interior empty_root w' (s ∷ [])
  unfolding absorb_all
  absorb_last w w' [] s h = cc
  absorb_last w w' (x ∷ path) s h = elim (Option-cases (absorb interior empty_root w x)) [
    | inl e ↦
        let no : ◌≡◌ {A = Option (Walk Hash)} none (some w') = rw (absorb_all, e) at h in
        absurd (ground (arith, no))
    | inr (w'', e) ↦ rw (absorb_all, e) (absorb_last w'' w' path s (rw (absorb_all, e) at h))
  ]

  pub absorb_step :
      (w w' w'' : Walk Hash) (path whole : List Hash) (s : Hash)
      → whole ≡ path ++ s ∷ []
      → absorb_all interior empty_root w path ≡ some w'
      → absorb interior empty_root w' s ≡ some w''
      → absorb_all interior empty_root w whole ≡ some w''
  unfolding absorb_all
  absorb_step w w' w'' path whole s split before now =
      rw (split, absorb_last w w' path s before, absorb_all, now) refl
