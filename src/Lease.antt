-- ===== src/Lease.antt =====
-- The lease on a data directory (kernel/internal/lease/lease.go): one row of the database, which each of
-- the racing processes reads and writes in single SQL statements. Instants are milliseconds, a
-- declared TTL is nanoseconds; a statement that fails changes nothing and is left out.
pub mod Exclusion
mod Tests
use deepaxiom_aura.Base.{
  ℕ, ◌+◌, ◌*◌, ◌/◌, String, Bool, true, false, Option, none, some, List, [], ◌∷◌, ◌==◌, string_eq,
  str_eq, if◌then◌else◌, leb,
}
use deepaxiom_aura.Base.Int.{ℤ, pos, pos_part, ltb_ℤ}

-- 10 seconds
abbrev pub default_ttl : ℤ
default_ttl = pos (10 * 1000000000)

-- The row of node_lease.
pub record LeaseRow : Type 0 where
  pub holder : String
  pub since : ℕ
  pub heartbeat : ℕ
  pub ttl_ms : ℕ

-- The TTL that `Acquire` goes by, in milliseconds.
unfoldable pub granted_ttl : ℤ → ℕ
granted_ttl ttl = pos_part (if ltb_ℤ (pos 0) ttl then ttl else default_ttl) / 1000000

-- The row after `Acquire` by a process with this id, and whether it took the lease.
unfoldable pub acquire : Option LeaseRow → String → ℤ → ℕ → Option LeaseRow × Bool
acquire row id ttl now =
    let mine : LeaseRow = record {
      holder = id;
      since = now;
      heartbeat = now;
      ttl_ms = granted_ttl ttl;
    } in
    elim row [
      | none ↦ (some mine, true)
      | some r ↦ if leb (r.heartbeat + r.ttl_ms) now then (some mine, true) else (some r, false)
    ]

-- The row after a renewal, and whether the process still holds the lease.
unfoldable pub beat : Option LeaseRow → String → ℕ → Option LeaseRow × Bool
beat row id now = elim row [
  | none ↦ (none, false)
  | some r ↦ if r.holder == id then (some (record r { heartbeat = now }), true) else (some r, false)
]

-- The row after `Release`: only the holder's own is deleted.
unfoldable pub give_up : Option LeaseRow → String → Option LeaseRow
give_up row id = elim row [ none ↦ none | some r ↦ if r.holder == id then none else some r ]

-- What a process does, by its id; `renewal` and `attempt` at an instant.
pub data LeaseStep : Type 0 where
  attempt : String → ℤ → ℕ → LeaseStep
  renewal : String → ℕ → LeaseStep
  release : String → LeaseStep

unfoldable pub lease_step : Option LeaseRow → LeaseStep → Option LeaseRow
lease_step row (attempt id ttl now) = (acquire row id ttl now).0
lease_step row (renewal id now) = (beat row id now).0
lease_step row (release id) = give_up row id

-- The steps of all processes, in the order in which the database takes them.
unfoldable pub lease_steps : Option LeaseRow → List LeaseStep → Option LeaseRow
lease_steps row [] = row
lease_steps row (s ∷ steps) = lease_steps (lease_step row s) steps
