-- ===== src/Ledger/Merkle/Root.antt =====
-- The tree head: `MerkleRoot` of merkle.go does not depend on the fuel, and splits as it is specified.
use deepaxiom_aura.Base.{
  ℕ, zero, suc, ◌<◌, ◌≤◌, ◌≡◌, refl, ap₂, sym, ◌∙◌, List, [], ◌∷◌, ◌++◌, length, length-append,
  length-take, length-drop, take, drop, pow2, pow2_pos, arith,
}
use deepaxiom_aura.Ledger.Merkle.{largest_power_of_two_below, root_fuel, merkle_root}
use deepaxiom_aura.Ledger.Merkle.Split.{split-eq-pow2, split_bounds, take-append, drop-append}

module _ {Hash : Type 0} (interior : Hash → Hash → Hash) (empty_root : Hash) where
  abbrev halves_root : (List Hash → Hash) → ℕ → List Hash → Hash
  halves_root root k leaves = interior (root (take k leaves)) (root (drop k leaves))

  fuel_irrelevant :
      (f g : ℕ) (leaves : List Hash)
      → length leaves ≤ f
      → length leaves ≤ g
      → root_fuel interior empty_root f leaves ≡ root_fuel interior empty_root g leaves
  unfolding root_fuel
  fuel_irrelevant f g [] hf hg = refl
  fuel_irrelevant f g (x ∷ []) hf hg = refl
  fuel_irrelevant zero g (x ∷ y ∷ rest) hf hg = absurd (omega arith)
  fuel_irrelevant (suc f) zero (x ∷ y ∷ rest) hf hg = absurd (omega arith)
  fuel_irrelevant (suc f) (suc g) (x ∷ y ∷ rest) hf hg =
      let leaves = x ∷ y ∷ rest in
      let k = largest_power_of_two_below (length leaves) in
      let (m, e, below, above) = split_bounds (length leaves) (omega arith) in
      let few : length (take k leaves) ≤ f = omega (arith, length-take k leaves) in
      let few' : length (take k leaves) ≤ g = omega (arith, length-take k leaves) in
      let rest_few : length (drop k leaves) ≤ f =
        omega (arith, length-drop k leaves, e, pow2_pos m) in
      let rest_few' : length (drop k leaves) ≤ g =
        omega (arith, length-drop k leaves, e, pow2_pos m) in
      ap₂ interior (fuel_irrelevant f g (take k leaves) few few')
        (fuel_irrelevant f g (drop k leaves) rest_few rest_few')

  -- The head of two leaves or more joins the heads of the two sides of the split.
  pub root_unroll :
      (leaves : List Hash)
      → 1 < length leaves
      → let k = largest_power_of_two_below (length leaves) in
        merkle_root interior empty_root leaves
        ≡ interior
            (merkle_root interior empty_root (take k leaves))
            (merkle_root interior empty_root (drop k leaves))
  unfolding merkle_root root_fuel
  root_unroll [] h = absurd (omega arith)
  root_unroll (x ∷ []) h = absurd (omega arith)
  root_unroll (x ∷ y ∷ rest) h =
      let leaves = x ∷ y ∷ rest in
      let k = largest_power_of_two_below (length leaves) in
      let (m, e, below, above) = split_bounds (length leaves) h in
      ap₂ interior
        (fuel_irrelevant (length (y ∷ rest)) (length (take k leaves)) (take k leaves)
          (omega (arith, length-take k leaves)) (omega arith))
        (fuel_irrelevant (length (y ∷ rest)) (length (drop k leaves)) (drop k leaves)
          (omega (arith, length-drop k leaves, e, pow2_pos m)) (omega arith))

  -- A perfect tree of 2^m leaves, followed by at most as many others, is a left subtree.
  pub root-append :
      (m : ℕ) (left right : List Hash)
      → length left ≡ pow2 m
      → 0 < length right
      → length right ≤ pow2 m
      → merkle_root interior empty_root (left ++ right)
        ≡ interior (merkle_root interior empty_root left) (merkle_root interior empty_root right)
  root-append m left right perfect some_right few =
      let split : largest_power_of_two_below (length (left ++ right)) ≡ length left =
        split-eq-pow2 m (length (left ++ right)) (omega (arith, length-append left right))
          (omega (arith, length-append left right))
        ∙ sym perfect in
      root_unroll (left ++ right) (omega (arith, length-append left right, pow2_pos m))
      ∙ rw (split, take-append, drop-append) refl
