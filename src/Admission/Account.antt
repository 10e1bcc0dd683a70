-- ===== src/Admission/Account.antt =====
-- The account of admission.go adds up, and never passes the budget.
use deepaxiom_aura.Base.{
  false, ℕ, ◌+◌, ◌≡◌, refl, ◌⊎◌, inl, inr, String, ◌&&◌, none, some, [], ◌∷◌, ◌==◌, string_eq,
  str_eq_iff, if◌then◌else◌, Dict, lookup, insert, erase, lookup-insert, lookup-erase, arith,
  Bool-cases,
}
use deepaxiom_aura.Base.Int.{
  ℤ, pos, pos_part, ◌+ℤ◌, ◌≤ℤ◌, ltb_ℤ, add64, sub64, max_int64, IsInt64, add64_fits, add64_over,
}
use deepaxiom_aura.Admission.{Admission, over_budget, admit, or_zero, free}

abbrev pub sum : Dict String ℤ → ℕ
sum [] = 0
sum ((_, n) ∷ m) = pos_part n + sum m

abbrev pub NoRepeat : Dict String ℤ → Type 0
NoRepeat [] = Unit
NoRepeat ((conn, _) ∷ m) = (lookup conn m ≡ none) × NoRepeat m

sum-insert :
    (conn : String) (n : ℤ) (m : Dict String ℤ)
    → lookup conn m ≡ none
    → sum (insert conn n m) ≡ sum m + pos_part n
unfolding insert lookup
sum-insert conn n [] h = omega arith
sum-insert conn n ((c, v) ∷ m) h = ground (arith, sum-insert conn n m)

NoRepeat-insert :
    (conn : String) (n : ℤ) (m : Dict String ℤ)
    → lookup conn m ≡ none
    → NoRepeat m
    → NoRepeat (insert conn n m)
unfolding insert lookup
NoRepeat-insert conn n [] h d = (refl, tt)
NoRepeat-insert conn n ((c, v) ∷ m) h d = ground (
  arith,
  NoRepeat-insert conn n m,
  lookup-insert conn c n m,
  str_eq_iff c conn,
  str_eq_iff conn c,
)

sum-erase :
    (conn : String) (m : Dict String ℤ)
    → NoRepeat m
    → sum (erase conn m) + pos_part (or_zero (lookup conn m)) ≡ sum m
unfolding erase lookup
sum-erase conn [] d = omega arith
sum-erase conn ((c, v) ∷ m) d = ground (arith, sum-erase conn m, str_eq_iff c conn)

NoRepeat-erase : (conn : String) (m : Dict String ℤ) → NoRepeat m → NoRepeat (erase conn m)
unfolding erase
NoRepeat-erase conn [] d = tt
NoRepeat-erase conn ((c, v) ∷ m) d = ground (arith, NoRepeat-erase conn m, lookup-erase conn c m)

-- No reservation is negative.
abbrev pub NonNegative : Dict String ℤ → Type 0
NonNegative [] = Unit
NonNegative ((_, n) ∷ m) = (pos 0 ≤ℤ n) × NonNegative m

NonNegative-insert :
    (conn : String) (n : ℤ) (m : Dict String ℤ)
    → pos 0 ≤ℤ n
    → NonNegative m
    → NonNegative (insert conn n m)
unfolding insert
NonNegative-insert conn n [] h k = (h, tt)
NonNegative-insert conn n ((c, v) ∷ m) h k = ground (arith, NonNegative-insert conn n m, h)

NonNegative-erase : (conn : String) (m : Dict String ℤ) → NonNegative m → NonNegative (erase conn m)
unfolding erase
NonNegative-erase conn [] k = tt
NonNegative-erase conn ((c, v) ∷ m) k = ground (arith, NonNegative-erase conn m)

held_nonnegative :
    (conn : String) (m : Dict String ℤ) → NonNegative m → pos 0 ≤ℤ or_zero (lookup conn m)
unfolding lookup
held_nonnegative conn [] k = omega arith
held_nonnegative conn ((c, v) ∷ m) k = ground (arith, held_nonnegative conn m)

-- What is used is what the connections reserve, an int64, and a positive budget covers it.
pub record Balanced (a : Admission) : Type 0 where
  pub total : a.used ≡ pos (sum a.per_conn)
  pub distinct : NoRepeat a.per_conn
  pub counted : NonNegative a.per_conn
  pub small : a.used ≤ℤ max_int64
  pub within : (a.budget ≤ℤ pos 0) ⊎ (a.used ≤ℤ a.budget)

module _ (a : Admission) (conn : String) (need : ℤ) (v : Balanced a)
    (fresh : lookup conn a.per_conn ≡ none) where
  -- The account with the reservation, its sum being one that an int64 holds.
  admit_fits :
      pos 0 ≤ℤ need
      → a.used +ℤ need ≤ℤ max_int64
      → (a.budget ≤ℤ pos 0) ⊎ (a.used +ℤ need ≤ℤ a.budget)
      → Balanced (record a { used = a.used +ℤ need; per_conn = insert conn need a.per_conn })
  admit_fits more fits within = record {
    total = ground (arith, sum-insert conn need a.per_conn fresh, v.total, more);
    distinct = NoRepeat-insert conn need a.per_conn fresh v.distinct;
    counted = NonNegative-insert conn need a.per_conn more v.counted;
    small = fits;
    within = within;
  }

  -- A need that an int64 holds: an honest one, or one that takes the sum out of the range.
  need_cases :
      ((pos 0 ≤ℤ need) × (a.used +ℤ need ≤ℤ max_int64))
      ⊎ (need +ℤ pos 1 ≤ℤ pos 0)
      ⊎ (max_int64 +ℤ pos 1 ≤ℤ a.used +ℤ need)
  need_cases = ground arith

  -- Whatever lowers the account passes the test of the budget.
  lower_admitted :
      (sum : ℤ) → sum +ℤ pos 1 ≤ℤ a.used → (ltb_ℤ (pos 0) a.budget && ltb_ℤ a.budget sum) ≡ false
  lower_admitted sum less = ground (arith, less, v.within)

  wrapped_lower :
      IsInt64 need
      → (need +ℤ pos 1 ≤ℤ pos 0) ⊎ (max_int64 +ℤ pos 1 ≤ℤ a.used +ℤ need)
      → add64 a.used need +ℤ pos 1 ≤ℤ a.used
  wrapped_lower ranged (inl negative) =
      rw (add64_fits a.used need (ground (arith, v.total, v.small, ranged, negative)))
        (ground (arith, negative))
  wrapped_lower ranged (inr over) =
      ground (arith, add64_over a.used need (ground (arith, v.total, v.small)) ranged over, ranged)

  -- For a connection without a reservation, on an account that is balanced, what is used being the
  -- sum of the reservations and within a positive budget: a need that an int64 holds is reserved and
  -- added with the account still balanced; or refused with the account unchanged, because the sum
  -- would pass the budget; or, where the need is negative or the sum passes the largest int64,
  -- admitted whatever the budget while the account goes down.
  pub admit_accounted :
      IsInt64 need
      → let (a', err) = admit a conn (some need) in
        (Balanced a'
          × (err ≡ none)
          × (a'.used ≡ a.used +ℤ need)
          × (lookup conn a'.per_conn ≡ some need))
        ⊎ ((err ≡ some over_budget) × (a' ≡ a) × (a.budget +ℤ pos 1 ≤ℤ a.used +ℤ need))
        ⊎ ((err ≡ none)
            × ((need +ℤ pos 1 ≤ℤ pos 0) ⊎ (max_int64 +ℤ pos 1 ≤ℤ a.used +ℤ need))
            × (a'.used +ℤ pos 1 ≤ℤ a.used))
  unfolding admit
  admit_accounted ranged = elim need_cases [
    | inr odd ↦
        let less = wrapped_lower ranged odd in
        rw (admit, lower_admitted (add64 a.used need) less) (inr (inr (refl, odd, less)))
    | inl (more, fits) ↦
        let same = add64_fits a.used need (ground (arith, v.total, more, fits)) in
        elim (Bool-cases (ltb_ℤ (pos 0) a.budget && ltb_ℤ a.budget (add64 a.used need))) [
          | inl over ↦ rw (admit, over) (inr (inl (refl, refl, ground (arith, over, same))))
          | inr room ↦
              rw (admit, room, same)
                (inl (
                  admit_fits more fits (ground (arith, room, same)),
                  refl,
                  refl,
                  ground (arith, lookup-insert conn conn need a.per_conn, str_eq_iff conn conn),
                ))
        ]
  ]

-- free keeps the account balanced, gives back exactly what the connection had reserved, forgets that
-- connection and leaves the others' reservations alone.
pub free-Balanced :
    (a : Admission) (conn other : String)
    → Balanced a
    → Balanced (free a conn)
      × ((free a conn).used +ℤ or_zero (lookup conn a.per_conn) ≡ a.used)
      × (lookup other (free a conn).per_conn
          ≡ (if conn == other then none else lookup other a.per_conn))
unfolding free sub64
free-Balanced a conn other v =
    let less = sum-erase conn a.per_conn v.distinct in
    let held = held_nonnegative conn a.per_conn v.counted in
    (
      record {
        total = ground (arith, less, held, v.total, v.small);
        distinct = NoRepeat-erase conn a.per_conn v.distinct;
        counted = NonNegative-erase conn a.per_conn v.counted;
        small = ground (arith, less, held, v.total, v.small);
        within = ground (arith, less, held, v.total, v.small, v.within);
      },
      ground (arith, less, held, v.total, v.small),
      lookup-erase conn other a.per_conn,
    )
