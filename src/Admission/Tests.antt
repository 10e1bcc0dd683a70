-- ===== src/Admission/Tests.antt =====
-- A node of 100 bytes, and a skill that declares more than an int64 holds.
use deepaxiom_aura.Base.{◌≡◌, refl, ◌⊎◌, inr, none, some, string_eq, lookup, arith}
use deepaxiom_aura.Base.Int.{pos, ◌+ℤ◌, ◌≤ℤ◌, max_int64, add64}
use deepaxiom_aura.Admission.{Admission, over_budget, new_admission, admit}
use deepaxiom_aura.Admission.Account.{Balanced, admit_accounted}

abbrev node : Admission
node = new_admission (pos 100)

new-Balanced : Balanced node
new-Balanced = record {
  total = refl;
  distinct = tt;
  counted = tt;
  small = omega arith;
  within = inr (omega arith);
}

nobody : lookup "c1" node.per_conn ≡ none
unfolding lookup
nobody = refl

-- With 60 bytes used, the largest int64 wraps and is let in.
wraps_in : (admit (record node { used = pos 60 }) "c2" (some max_int64)).1 ≡ none
unfolding admit add64
wraps_in = refl

admit_accounted_example :
    let (a', err) = admit node "c1" (some (pos 60)) in
    (Balanced a'
      × (err ≡ none)
      × (a'.used ≡ node.used +ℤ pos 60)
      × (lookup "c1" a'.per_conn ≡ some (pos 60)))
    ⊎ ((err ≡ some over_budget) × (a' ≡ node) × (node.budget +ℤ pos 1 ≤ℤ node.used +ℤ pos 60))
    ⊎ ((err ≡ none)
        × ((pos 60 +ℤ pos 1 ≤ℤ pos 0) ⊎ (max_int64 +ℤ pos 1 ≤ℤ node.used +ℤ pos 60))
        × (a'.used +ℤ pos 1 ≤ℤ node.used))
admit_accounted_example =
    admit_accounted node "c1" (pos 60) new-Balanced nobody (omega arith, omega arith)
