-- ===== src/Ledger/Merkle/Inclusion/Accept.antt =====
-- `VerifyInclusion` of merkle.go accepts what `InclusionProof` gives.
use deepaxiom_aura.Base.{
  ℕ, ◌-◌, ◌*◌, ◌≡◌, refl, ap, ◌∙◌, true, false, some, List, length, get_elem?, Eq, beq_refl,
  get_elem?_lt, pow2, pow2_gt, arith, leb,
}
use deepaxiom_aura.Ledger.Merkle.{
  absorb_all, verify_inclusion, inclusion_path, inclusion_proof, merkle_root,
}
use deepaxiom_aura.Ledger.Merkle.Inclusion.{Audit}
use deepaxiom_aura.Ledger.Merkle.Inclusion.Walks.{at}
use deepaxiom_aura.Ledger.Merkle.Inclusion.Rebuild.{edge}
use deepaxiom_aura.Ledger.Merkle.Inclusion.Paths.{path_Audit}

module _ {Hash : Type 0} ⦃e : Eq Hash⦄ (interior : Hash → Hash → Hash) (empty_root : Hash) where
  -- The walk along an audit path from the leaf's index and the last index ends with both at zero and the
  -- head of the path.
  pub walk_home :
      {n i : ℕ} {q : List Hash} {leaf c : Hash}
      → Audit interior leaf n i q c
      → absorb_all interior empty_root (at interior empty_root i (n - 1) leaf) q
        ≡ some (at interior empty_root 0 0 c)
  walk_home {n = n} {i = i} {leaf = leaf} {c = c} a =
      let (t, walked) =
        edge interior empty_root leaf a n 0 i (n - 1) (omega (arith, pow2_gt n)) (omega arith)
          (omega arith) in
      let home : pow2 t * 0 ≡ 0 = omega arith in
      walked ∙ ap (λ (z : ℕ). some (at interior empty_root z z c)) home

  -- For every list of leaves and every index that holds a leaf, the proof that inclusion_proof gives
  -- is accepted by verify_inclusion for that leaf, index, number of leaves and their merkle_root.
  pub inclusion_accepted :
      (leaves : List Hash) (i : ℕ) (leaf : Hash)
      → get_elem? leaves i ≡ some leaf
      → (proof : List Hash) × (inclusion_proof interior empty_root leaves i ≡ some proof)
        × (verify_inclusion interior empty_root leaf i
              (length leaves)
              proof
              (merkle_root interior empty_root leaves)
            ≡ true)
  unfolding inclusion_proof inclusion_path verify_inclusion
  inclusion_accepted leaves i leaf found =
      let il = get_elem?_lt leaves i leaf found in
      let inside : leb (length leaves) i ≡ false = ground arith in
      let home =
        walk_home
          (path_Audit interior empty_root leaf (length leaves) leaves i (omega arith) found) in
      (
        inclusion_path interior empty_root leaves i,
        rw inside refl,
        rw (inside, home) (beq_refl (merkle_root interior empty_root leaves)),
      )
