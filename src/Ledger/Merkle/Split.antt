-- ===== src/Ledger/Merkle/Split.antt =====
-- Where RFC 6962 splits a tree: `largestPowerOfTwoBelow` of merkle.go.
use deepaxiom_aura.Base.{
  ℕ, zero, suc, ◌*◌, ◌<◌, ◌≤◌, ◌≡◌, refl, ap, ◌∙◌, inl, inr, Bool-cases, ltb, List, [], ◌∷◌, ◌++◌,
  length, take, drop, pow2, pow2_pos, pow2_gt, arith,
}
use deepaxiom_aura.Ledger.Merkle.{double_below, largest_power_of_two_below}

le-mul : (k p : ℕ) → 0 < p → k ≤ k * p
le-mul k p h = grind arith

-- From k the loop doubles d times, where that is what it takes.
double_below_lem :
    (fuel n k d : ℕ)
    → k * pow2 d < n
    → n ≤ 2 * (k * pow2 d)
    → d ≤ fuel
    → double_below fuel n k ≡ k * pow2 d
unfolding double_below
double_below_lem zero n k zero lo hi f = omega arith
double_below_lem (suc fuel) n k zero lo hi f = ground arith
double_below_lem zero n k (suc d) lo hi f = absurd (omega arith)
double_below_lem (suc fuel) n k (suc d) lo hi f =
    let small : k * pow2 d < n = omega arith in
    ground (
      arith,
      le-mul k (pow2 d) (pow2_pos d),
      double_below_lem fuel n (2 * k) d (omega arith) (omega arith) (omega arith),
    )

-- The split of a tree with more than 2^m and at most 2^(m+1) leaves is 2^m.
pub split-eq-pow2 : (m n : ℕ) → pow2 m < n → n ≤ 2 * pow2 m → largest_power_of_two_below n ≡ pow2 m
unfolding largest_power_of_two_below
split-eq-pow2 m n lo hi =
    double_below_lem n n 1 m (omega arith) (omega arith) (omega (arith, pow2_gt m)) ∙ omega arith

-- Every tree of two leaves or more has such an m.
pub split_exponent : (n : ℕ) → 1 < n → (m : ℕ) × (pow2 m < n) × (n ≤ 2 * pow2 m)
split_exponent zero h = absurd (omega arith)
split_exponent (suc zero) h = absurd (omega arith)
split_exponent (suc (suc zero)) h = (0, omega arith, omega arith)
split_exponent (suc (suc (suc n))) h =
    let (m, lo, hi) = split_exponent (suc (suc n)) (omega arith) in
    elim (Bool-cases (ltb (2 * pow2 m) (suc (suc (suc n))))) [
      | inl more ↦ (suc m, ground arith, omega arith)
      | inr same ↦ (m, omega arith, ground arith)
    ]

-- The split is a power of two below the number of leaves, and the greatest: twice it is no longer below.
pub split_bounds :
    (n : ℕ)
    → 1 < n
    → (m : ℕ) × (largest_power_of_two_below n ≡ pow2 m)
      × (largest_power_of_two_below n < n)
      × (n ≤ 2 * largest_power_of_two_below n)
split_bounds n h =
    let (m, lo, hi) = split_exponent n h in
    let e = split-eq-pow2 m n lo hi in (m, e, rw e lo, rw e hi)

module _ {A : Type 0} where
  pub take-append : (xs ys : List A) → take (length xs) (xs ++ ys) ≡ xs
  take-append [] ys = refl
  take-append (x ∷ xs) ys = ap (λ l. x ∷ l) (take-append xs ys)

  pub drop-append : (xs ys : List A) → drop (length xs) (xs ++ ys) ≡ ys
  drop-append [] ys = refl
  drop-append (x ∷ xs) ys = drop-append xs ys
