-- ===== src/Executor/Budget.antt =====
-- Deadlines and the context budget (kernel/internal/executor/budget.go). Instants and durations are
-- milliseconds; `now` is the clock's reading, which the source takes inside each call.
use deepaxiom_aura.Base.{
  ℕ, ◌+◌, ◌*◌, ◌/◌, ◌≤◌, ◌≡◌, ◌≢◌, ◌⊎◌, ◌↔◌, Bool, true, false, not, ◌&&◌, ◌||◌, List, [], ◌∷◌,
  length, arith, ◌==◌, string_eq, str_eq_iff, refl, if◌then◌else◌,
}
use deepaxiom_aura.Base.Int.{ℤ, pos, ◌+ℤ◌, ◌≤ℤ◌, ltb_ℤ, eqb_ℤ}
use deepaxiom_aura.Channel.{Envelope, kind_data}
use deepaxiom_aura.Executor.Types.{client_ref}

unfoldable pub inherit_deadline : ℤ → ℤ → ℤ → ℤ
inherit_deadline now inherited local_ms =
    let local = if ltb_ℤ (pos 0) local_ms then now +ℤ local_ms else pos 0 in
    if eqb_ℤ inherited (pos 0)
    then local
    else if eqb_ℤ local (pos 0)
    then inherited
    else if ltb_ℤ local inherited
    then local
    else inherited

unfoldable pub deadline_expired : ℤ → ℤ → Bool
deadline_expired now deadline = ltb_ℤ (pos 0) deadline && ltb_ℤ deadline now

-- At an instant that is not negative: a hop never extends a deadline that it inherits; where it
-- declares its own budget, it never grants more than that either; and where it declares none, it
-- passes on what it inherited, zero for none.
pub inherit_deadline_tightens :
    (now inherited local_ms : ℤ)
    → pos 0 ≤ℤ now
    → let deadline = inherit_deadline now inherited local_ms in
      ((inherited ≡ pos 0) ⊎ (deadline ≤ℤ inherited))
      × ((local_ms ≤ℤ pos 0) ⊎ (deadline ≤ℤ now +ℤ local_ms))
      × ((pos 1 ≤ℤ local_ms) ⊎ (deadline ≡ inherited))
unfolding inherit_deadline
inherit_deadline_tightens now inherited local_ms h = (ground arith, ground arith, ground arith)

-- contextLedger
pub record ContextLedger : Type 0 where
  pub budget : ℤ
  pub consumed : ℕ

abbrev pub bytes_per_token_estimate : ℕ
bytes_per_token_estimate = 4

-- The consumption after the charge, and whether the budget is blown.
unfoldable pub charge : ContextLedger → ℕ → ContextLedger × ℕ × Bool
charge c payload_bytes =
    if ltb_ℤ (pos 0) c.budget
    then (let consumed' = c.consumed + payload_bytes / bytes_per_token_estimate in
        (record c { consumed = consumed' }, consumed', ltb_ℤ c.budget (pos consumed')))
    else (c, c.consumed, false)

-- `chargeContext` for a session that has a ledger: whether the delivery is refused.
unfoldable pub charge_context : ContextLedger → Envelope → ContextLedger × Bool
charge_context c out =
    if not (out.kind == kind_data) || (out.node == client_ref)
    then (c, false)
    else (let (c', _, over) = charge c (length out.payload) in (c', over))

-- `dropExpired`: whether a delivery has missed its deadline. What it appends to the event log then
-- is not modelled here.
unfoldable pub drop_expired : ℤ → Envelope → Bool
drop_expired now out = deadline_expired now out.deadline && (out.kind == kind_data)

-- A run of charges.
unfoldable pub charge_all : ContextLedger → List ℕ → ContextLedger
charge_all c [] = c
charge_all c (n ∷ ns) = charge_all (charge c n).0 ns

abbrev pub total : List ℕ → ℕ
total [] = 0
total (n ∷ ns) = n + total ns

budget-charge_all : (c : ContextLedger) (ns : List ℕ) → (charge_all c ns).budget ≡ c.budget
unfolding charge_all charge
budget-charge_all c [] = refl
budget-charge_all c (n ∷ ns) = ground (arith, budget-charge_all (charge c n).0 ns)

charge_step :
    (c : ContextLedger) (n : ℕ)
    → pos 1 ≤ℤ c.budget
    → ((charge c n).0.consumed ≡ c.consumed + n / 4) × ((charge c n).0.budget ≡ c.budget)
unfolding charge
charge_step c n h = ground arith

-- Under a declared budget, what a run of payloads adds, four bytes to a token, is at most their
-- bytes, and short of them by less than one token for each payload.
pub charge_all_bounds :
    (c : ContextLedger) (ns : List ℕ)
    → pos 1 ≤ℤ c.budget
    → let after = (charge_all c ns).consumed in
      (4 * after ≤ 4 * c.consumed + total ns)
      × (4 * c.consumed + total ns ≤ 4 * after + 3 * length ns)
unfolding charge_all
charge_all_bounds c [] h = omega arith
charge_all_bounds c (n ∷ ns) h =
    let (more, same) = charge_step c n h in
    omega (arith, charge_all_bounds (charge c n).0 ns (rw same h), more)

-- A delivery is refused exactly when it carries data into a skill, a budget was declared and the
-- consumption that it brings passes the budget.
pub charge_context_refuses :
    (c : ContextLedger) (out : Envelope)
    → ((charge_context c out).1 ≡ true) ↔ (
        (out.kind ≡ kind_data)
        × (out.node ≢ client_ref)
        × (pos 1 ≤ℤ c.budget)
        × (c.budget +ℤ pos 1 ≤ℤ pos (c.consumed + length out.payload / 4)))
unfolding charge_context charge
charge_context_refuses c out =
    ground (arith, str_eq_iff out.kind kind_data, str_eq_iff out.node client_ref)
