-- ===== src/Ledger/Merkle/Tests.antt =====
-- Concrete runs of the tree and its proofs.
use deepaxiom_aura.Base.{
  ℕ, ◌+◌, ◌*◌, ◌≡◌, refl, ◌⊎◌, true, some, List, [], ◌∷◌, length, get_elem?, nat_eq, string_eq,
  bool_eq,
}
use deepaxiom_aura.Ledger.Merkle.{
  CompactTree, new_tree, merkle_root, tree_root, inclusion_proof, inclusion_path, verify_inclusion,
  path_fuel, largest_power_of_two_below, double_below, absorb_all, absorb, strip, root_fuel,
}
use deepaxiom_aura.Ledger.Merkle.Compact.{append_all, compact-root}
use deepaxiom_aura.Ledger.Merkle.Inclusion.Accept.{inclusion_accepted}
use deepaxiom_aura.Ledger.Merkle.Inclusion.Sound.{Collision, inclusion_sound}

-- A small hash for the runs.
abbrev mix : ℕ → ℕ → ℕ
mix a b = 3 * a + 5 * b + 1

abbrev five : List ℕ
five = 10 ∷ 11 ∷ 12 ∷ 13 ∷ 14 ∷ []

compact-root_example :
    (t : CompactTree ℕ) × (append_all mix 0 new_tree five ≡ some t)
    × (t.size ≡ length five)
    × (tree_root mix 0 t ≡ merkle_root mix 0 five)
compact-root_example = compact-root mix 0 five

inclusion_accepted_example :
    (proof : List ℕ) × (inclusion_proof mix 0 five 3 ≡ some proof)
    × (verify_inclusion mix 0 13 3 (length five) proof (merkle_root mix 0 five) ≡ true)
inclusion_accepted_example = inclusion_accepted mix 0 five 3 13 refl

abbrev proof_of_three : List ℕ
proof_of_three = inclusion_path mix 0 five 3

accepted_three :
    verify_inclusion mix 0 13 3 (length five) proof_of_three (merkle_root mix 0 five) ≡ true
unfolding verify_inclusion inclusion_path path_fuel merkle_root root_fuel largest_power_of_two_below
    double_below absorb_all absorb strip
accepted_three = refl

inclusion_sound_example : (get_elem? five 3 ≡ some 13) ⊎ Collision mix
inclusion_sound_example = inclusion_sound mix 0 five 3 13 proof_of_three accepted_three
