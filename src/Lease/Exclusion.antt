-- ===== src/Lease/Exclusion.antt =====
-- One writer at a time: what the interleavings of lease.go can and cannot do.
use deepaxiom_aura.Base.{
  ℕ, ◌+◌, ◌<◌, ◌≡◌, ◌≢◌, refl, String, true, false, Option, none, some, List, [], ◌∷◌, ◌==◌,
  string_eq, str_eq_iff, leb, arith, Bool-cases, inl, inr, beq_ne, beq_refl,
}
use deepaxiom_aura.Lease.{
  LeaseRow, acquire, beat, give_up, LeaseStep, attempt, renewal, release, lease_step, lease_steps,
}

-- A step of another process, before an instant.
abbrev pub ByOther : String → ℕ → LeaseStep → Type 0
ByOther me before (attempt id ttl now) = (id ≢ me) × (now < before)
ByOther me before (renewal id now) = id ≢ me
ByOther me before (release id) = id ≢ me

abbrev pub AllByOthers : String → ℕ → List LeaseStep → Type 0
AllByOthers me before [] = Unit
AllByOthers me before (s ∷ steps) = ByOther me before s × AllByOthers me before steps

other_step :
    (r : LeaseRow) (s : LeaseStep)
    → ByOther r.holder (r.heartbeat + r.ttl_ms) s
    → lease_step (some r) s ≡ some r
unfolding lease_step acquire beat give_up
other_step r (attempt id ttl now) h = ground arith
other_step r (renewal id now) h = ground (arith, str_eq_iff r.holder id)
other_step r (release id) h = ground (arith, str_eq_iff r.holder id)

other_steps :
    (r : LeaseRow) (steps : List LeaseStep)
    → AllByOthers r.holder (r.heartbeat + r.ttl_ms) steps
    → lease_steps (some r) steps ≡ some r
unfolding lease_steps
other_steps r [] all = refl
other_steps r (s ∷ steps) (one, all) = rw (other_step r s one) (other_steps r steps all)

-- Until a holder's last heartbeat is as old as the TTL that it declared, no attempt, renewal or
-- release by other processes, in any number and order, changes the row, and the holder's next
-- renewal succeeds.
pub holder_undisturbed :
    (r : LeaseRow) (steps : List LeaseStep) (now : ℕ)
    → AllByOthers r.holder (r.heartbeat + r.ttl_ms) steps
    → (lease_steps (some r) steps ≡ some r)
      × (beat (lease_steps (some r) steps) r.holder now
          ≡ (some (record r { heartbeat = now }), true))
unfolding beat
holder_undisturbed r steps now all =
    (other_steps r steps all, rw (other_steps r steps all, beat, beq_refl r.holder) refl)

-- The row does not name the process.
abbrev pub NotMine : String → Option LeaseRow → Type 0
NotMine me none = Unit
NotMine me (some r) = r.holder ≢ me

-- A step that is not an attempt of the process.
abbrev pub NoAttempt : String → LeaseStep → Type 0
NoAttempt me (attempt id ttl now) = id ≢ me
NoAttempt me (renewal id now) = Unit
NoAttempt me (release id) = Unit

abbrev pub NoAttempts : String → List LeaseStep → Type 0
NoAttempts me [] = Unit
NoAttempts me (s ∷ steps) = NoAttempt me s × NoAttempts me steps

still_lost :
    (me : String) (row : Option LeaseRow) (s : LeaseStep)
    → NotMine me row
    → NoAttempt me s
    → NotMine me (lease_step row s)
unfolding lease_step acquire beat give_up
still_lost me none (attempt id ttl now) lost ok = ok
still_lost me none (renewal id now) lost ok = tt
still_lost me none (release id) lost ok = tt
still_lost me (some r) (attempt id ttl now) lost ok =
    elim (Bool-cases (leb (r.heartbeat + r.ttl_ms) now)) [
      | inl stale ↦ rw (lease_step, acquire, stale) ok
      | inr fresh ↦ rw (lease_step, acquire, fresh) lost
    ]
still_lost me (some r) (renewal id now) lost ok = elim (Bool-cases (r.holder == id)) [
  | inl own ↦ rw (lease_step, beat, own) lost
  | inr other ↦ rw (lease_step, beat, other) lost
]
still_lost me (some r) (release id) lost ok = elim (Bool-cases (r.holder == id)) [
  | inl own ↦ rw (lease_step, give_up, own) tt
  | inr other ↦ rw (lease_step, give_up, other) lost
]

beat_lost :
    (me : String) (row : Option LeaseRow) (now : ℕ)
    → NotMine me row
    → beat row me now ≡ (row, false)
unfolding beat
beat_lost me none now lost = refl
beat_lost me (some r) now lost = rw (beat, beq_ne r.holder me lost) refl

-- A process that the row does not name finds each later renewal fail and its release delete nothing,
-- whatever the others do, unless it attempts to take the lease again.
pub lost_for_good :
    (me : String) (row : Option LeaseRow) (steps : List LeaseStep) (now : ℕ)
    → NotMine me row
    → NoAttempts me steps
    → (beat (lease_steps row steps) me now ≡ (lease_steps row steps, false))
      × (give_up (lease_steps row steps) me ≡ lease_steps row steps)
unfolding lease_steps give_up
lost_for_good me none [] now lost none_made = (beat_lost me none now tt, refl)
lost_for_good me (some r) [] now lost none_made =
    (beat_lost me (some r) now lost, rw (beq_ne r.holder me lost) refl)
lost_for_good me row (s ∷ steps) now lost (one, rest) =
    lost_for_good me (lease_step row s) steps now (still_lost me row s lost one) rest
