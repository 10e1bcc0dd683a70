-- ===== src/Base/Words.antt =====
-- Parity, halves and powers of two, as the shifts and masks of the code read them.
use Prim.Native.Nat.{ℕ, zero, suc, ◌+◌, ◌-◌, ◌*◌, ◌%◌, ◌<◌, ◌≤◌}
use mathlib.Core.Bool.{Bool}
use mathlib.Core.Path.{◌≡◌, refl, ap, ◌∙◌}
use mathlib.Core.Logic.{◌⊎◌, inl, inr}
use native.Mathlib.Nat.{zero-add, suc-add}
use native.Mathlib.Omega.{arith}
use deepaxiom_aura.Base.Tests.{nat_beq, leb, Bool-cases}

-- n&1 == 1
abbrev pub odd : ℕ → Bool
odd n = nat_beq (n % 2) 1

-- 1 << m
abbrev pub pow2 : ℕ → ℕ
pow2 zero = 1
pow2 (suc m) = 2 * pow2 m

pub pow2_pos : (m : ℕ) → 0 < pow2 m
pow2_pos zero = omega arith
pow2_pos (suc m) = omega (arith, pow2_pos m)

pub pow2_gt : (m : ℕ) → m < pow2 m
pow2_gt zero = omega arith
pow2_gt (suc m) = omega (arith, pow2_gt m)

pub pow2-add : (a b : ℕ) → pow2 (a + b) ≡ pow2 a * pow2 b
pow2-add zero b = rw zero-add (omega arith)
pow2-add (suc a) b = rw suc-add (omega (arith, pow2-add a b, ap (λ (t : ℕ). 2 * t) (pow2-add a b)))

pub pow2_mono : (a b : ℕ) → a ≤ b → pow2 a ≤ pow2 b
pow2_mono zero b h = omega (arith, pow2_pos b)
pow2_mono (suc a) zero h = absurd (omega arith)
pow2_mono (suc a) (suc b) h = omega (arith, pow2_mono a b (omega arith))

-- Between one power and the next there is only the next.
pub pow2_next : (m k : ℕ) → pow2 m < pow2 k → pow2 k ≤ 2 * pow2 m → k ≡ suc m
pow2_next m zero lo hi = absurd (omega (arith, pow2_pos m))
pow2_next zero (suc zero) lo hi = refl
pow2_next zero (suc (suc k)) lo hi = absurd (omega (arith, pow2_pos k))
pow2_next (suc m) (suc k) lo hi = ap suc (pow2_next m k (omega arith) (omega arith))

le_or_gt : (h m : ℕ) → (h ≤ m) ⊎ (m < h)
le_or_gt h m = elim (Bool-cases (leb h m)) [
  | inl e ↦ inl (ground arith)
  | inr e ↦ inr (ground arith)
]

-- Where 2^m < n ≤ 2^h, the exponent h is m + 1 and something.
pub pow2_gap : (m h n : ℕ) → pow2 m < n → n ≤ pow2 h → (d : ℕ) × (pow2 h ≡ 2 * pow2 m * pow2 d)
pow2_gap m h n lo hi = elim (le_or_gt h m) [
  | inl low ↦ absurd (omega (arith, pow2_mono h m low))
  | inr high ↦
      let e : h ≡ suc m + (h - suc m) = omega arith in
      (h - suc m, ap pow2 e ∙ pow2-add (suc m) (h - suc m))
]
