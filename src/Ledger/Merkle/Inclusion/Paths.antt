-- ===== src/Ledger/Merkle/Inclusion/Paths.antt =====
-- `InclusionProof` of merkle.go gives an audit path of the leaf it is asked about.
use deepaxiom_aura.Base.{
  ℕ, zero, suc, ◌-◌, ◌<◌, ◌≤◌, ◌≡◌, refl, ap, sym, ◌∙◌, inl, inr, Bool-cases, ltb, some, List, [],
  ◌∷◌, ◌++◌, length, length-take, length-drop, take, drop, get_elem?, get_elem?_lt, get_elem?-take,
  get_elem?-drop, pow2, pow2_pos, arith,
}
use deepaxiom_aura.Ledger.Merkle.{path_fuel, merkle_root, root_fuel, largest_power_of_two_below}
use deepaxiom_aura.Ledger.Merkle.Split.{split_exponent, split-eq-pow2}
use deepaxiom_aura.Ledger.Merkle.Root.{root_unroll}
use deepaxiom_aura.Ledger.Merkle.Inclusion.{Audit, one, left, right}

module _ {Hash : Type 0} (interior : Hash → Hash → Hash) (empty_root : Hash) (leaf : Hash) where
  resize :
      {n n' i i' : ℕ} {q q' : List Hash} {c c' : Hash}
      → n ≡ n'
      → i ≡ i'
      → q ≡ q'
      → c ≡ c'
      → Audit interior leaf n i q c
      → Audit interior leaf n' i' q' c'
  resize en ei eq ec a = rw (← en, ← ei, ← eq, ← ec) a

  path_left :
      (fuel i : ℕ) (leaves : List Hash)
      → let k = largest_power_of_two_below (length leaves) in
        1 < length leaves
        → i < k
        → path_fuel interior empty_root fuel (take k leaves) i
            ++ merkle_root interior empty_root (drop k leaves) ∷ []
          ≡ path_fuel interior empty_root (suc fuel) leaves i
  unfolding path_fuel
  path_left fuel i leaves big h = ground arith

  path_right :
      (fuel i : ℕ) (leaves : List Hash)
      → let k = largest_power_of_two_below (length leaves) in
        1 < length leaves
        → k ≤ i
        → path_fuel interior empty_root fuel (drop k leaves) (i - k)
            ++ merkle_root interior empty_root (take k leaves) ∷ []
          ≡ path_fuel interior empty_root (suc fuel) leaves i
  unfolding path_fuel
  path_right fuel i leaves big h = ground arith

  -- The path of `inclusionPath` is an audit path of the leaf at the index.
  pub path_Audit :
      (fuel : ℕ) (leaves : List Hash) (i : ℕ)
      → length leaves ≤ fuel
      → get_elem? leaves i ≡ some leaf
      → Audit interior leaf
          (length leaves)
          i
          (path_fuel interior empty_root fuel leaves i)
          (merkle_root interior empty_root leaves)
  unfolding merkle_root root_fuel path_fuel
  path_Audit fuel [] i fits found = absurd (ground (arith, found))
  path_Audit zero (x ∷ rest) i fits found = absurd (omega arith)
  path_Audit (suc fuel) (x ∷ []) zero fits found =
      let same : leaf ≡ x = ground (arith, found) in
      let none_left : [] ≡ path_fuel interior empty_root (suc fuel) (x ∷ []) 0 = ground arith in
      resize refl refl none_left same (one refl refl)
  path_Audit (suc fuel) (x ∷ []) (suc i) fits found = absurd (ground (arith, found))
  path_Audit (suc fuel) (x ∷ y ∷ rest) i fits found =
      let leaves = x ∷ y ∷ rest in
      let k = largest_power_of_two_below (length leaves) in
      let (m, lo, hi) = split_exponent (length leaves) (omega arith) in
      let split : k ≡ pow2 m = split-eq-pow2 m (length leaves) lo hi in
      let head = root_unroll interior empty_root leaves (omega arith) in
      let il = get_elem?_lt leaves i leaf found in
      let wide : length (take k leaves) ≡ pow2 m = omega (arith, length-take k leaves, split, lo) in
      let thin : length (drop k leaves) ≡ length leaves - pow2 m =
        omega (arith, length-drop k leaves, split) in
      elim (Bool-cases (ltb i k)) [
        | inl low ↦
            let below : i < k = ground arith in
            let sub =
              path_Audit fuel (take k leaves) i (omega (arith, wide, lo))
                (get_elem?-take leaves k i below ∙ found) in
            resize refl refl (path_left fuel i leaves (omega arith) below) (sym head)
              (left m _ lo hi (omega (arith, split)) refl (resize wide refl refl refl sub))
        | inr high ↦
            let above : k ≤ i = ground arith in
            let sub =
              path_Audit fuel (drop k leaves) (i - k) (omega (arith, thin, pow2_pos m))
                (get_elem?-drop leaves k (i - k) ∙ ap (get_elem? leaves) (omega arith) ∙ found) in
            resize refl refl (path_right fuel i leaves (omega arith) above) (sym head) (
              right m _ lo hi (omega (arith, split)) il refl
                (resize thin (ap (λ (j : ℕ). i - j) split) refl refl sub))
      ]
