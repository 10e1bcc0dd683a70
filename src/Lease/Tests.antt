-- ===== src/Lease/Tests.antt =====
-- Concrete interleavings of two processes and one lease.
use deepaxiom_aura.Base.{
  ◌≡◌, ◌≢◌, refl, String, true, false, Option, some, List, [], ◌∷◌, str_eq, str_ne, arith,
}
use deepaxiom_aura.Base.Int.{pos}
use deepaxiom_aura.Lease.{
  LeaseRow, beat, give_up, LeaseStep, attempt, renewal, release, lease_steps,
}
use deepaxiom_aura.Lease.Exclusion.{holder_undisturbed, lost_for_good}

abbrev leader : LeaseRow
leader = record { holder = "a"; since = 100; heartbeat = 100; ttl_ms = 50 }

ba_ne : ◌≢◌ {A = String} "b" "a"
unfolding str_eq
ba_ne = str_ne _ _ refl

abbrev challenge : List LeaseStep
challenge = attempt "b" (pos 1000000) 149 ∷ renewal "b" 200 ∷ release "b" ∷ []

holder_undisturbed_example :
    (lease_steps (some leader) challenge ≡ some leader)
    × (beat (lease_steps (some leader) challenge) "a" 149
        ≡ (some (record leader { heartbeat = 149 }), true))
holder_undisturbed_example =
    holder_undisturbed leader challenge 149 ((ba_ne, omega arith), (ba_ne, (ba_ne, tt)))

abbrev successor : Option LeaseRow
successor = some (record { holder = "b"; since = 150; heartbeat = 150; ttl_ms = 50 })

lost_for_good_example :
    (beat (lease_steps successor (renewal "a" 151 ∷ release "b" ∷ [])) "a" 160
      ≡ (lease_steps successor (renewal "a" 151 ∷ release "b" ∷ []), false))
    × (give_up (lease_steps successor (renewal "a" 151 ∷ release "b" ∷ [])) "a"
        ≡ lease_steps successor (renewal "a" 151 ∷ release "b" ∷ []))
lost_for_good_example =
    lost_for_good "a" successor (renewal "a" 151 ∷ release "b" ∷ []) 160 ba_ne (tt, (tt, tt))
