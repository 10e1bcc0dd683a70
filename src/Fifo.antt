-- ===== src/Fifo.antt =====
-- The bound that the kernel's in-memory indexes share (kernel/internal/executor/causal.go and
-- speculation.go, kernel/internal/channel/envelope.go): a map, the order in which its keys came,
-- and `order = append(order, k); if len(order) > max { oldest, order = order[0], order[1:];
-- delete(m, oldest) }`.
use deepaxiom_aura.Base.{
  ℕ, ◌+◌, ◌≤◌, ◌<◌, ◌≡◌, refl, Bool, true, false, Option, none, some, List, [], ◌∷◌, ◌++◌,
  append_assoc, arith, ltb, if◌then◌else◌, Eq, ◌==◌, length, length-append, contains,
  contains-append, Distinct, Distinct-snoc, Dict, is_some, lookup, insert, erase, remove_first,
  Distinct-remove_first, length-remove_first, contains-remove_first, lookup-insert, lookup-erase,
  Bool-cases, Option-cases, inl, inr,
}

-- The order after one more key, and the key that fell out at its front.
module _ {ℓ} {K : Type ℓ} where
  abbrev pub trim : ℕ → List K → List K × Option K
  trim max [] = ([], none)
  trim max (x ∷ xs) = if ltb max (length (x ∷ xs)) then (xs, some x) else (x ∷ xs, none)

  unfoldable pub push : ℕ → List K → K → List K × Option K
  push max order k = trim max (order ++ k ∷ [])

module _ {ℓ} {K : Type ℓ} ⦃e : Eq K⦄ where
  -- What `push` does to membership.
  abbrev pub fell_out : Option K → K → Bool
  fell_out none j = false
  fell_out (some k) j = k == j

  trim-contains :
      (max : ℕ) (order : List K) (j : K)
      → Distinct order
      → contains (trim max order).0 j
        ≡ (if fell_out (trim max order).1 j then false else contains order j)
  trim-contains max [] j d = refl
  trim-contains max (x ∷ xs) j d = ground (arith, e.agrees_iff x j)

  trim-Distinct : (max : ℕ) (order : List K) → Distinct order → Distinct (trim max order).0
  trim-Distinct max [] d = tt
  trim-Distinct max (x ∷ xs) d = ground arith

  trim-bounded :
      (max : ℕ) (order : List K) → length order ≤ max + 1 → length (trim max order).0 ≤ max
  trim-bounded max [] h = omega arith
  trim-bounded max (x ∷ xs) h = ground arith

  -- The key that falls out stood at the front, and is not the one that came in.
  trim_front :
      (max : ℕ) (order : List K) (k : K)
      → 0 < max
      → contains order k ≡ false
      → fell_out (trim max (order ++ k ∷ [])).1 k ≡ false
  trim_front max [] k h n = ground (arith, e.agrees_iff k k)
  trim_front max (x ∷ xs) k h n = ground arith

  module _ (max : ℕ) (order : List K) (k : K) (room : 0 < max)
      (fresh : contains order k ≡ false) where
    pub push_kept : fell_out (push max order k).1 k ≡ false
    unfolding push
    push_kept = trim_front max order k room fresh

    pub push-contains :
        (j : K)
        → Distinct order
        → contains (push max order k).0 j ≡ (
            if k == j
            then true
            else if fell_out (push max order k).1 j
            then false
            else contains order j)
    unfolding push
    push-contains j d = ground (
      arith,
      trim-contains max (order ++ k ∷ []) j,
      Distinct-snoc order k d fresh,
      contains-append order (k ∷ []) j,
      trim_front max order k room fresh,
      e.agrees_iff k j,
    )

module _ {ℓ κ} {K : Type ℓ} {V : Type κ} ⦃e : Eq K⦄ where
  -- delete(m, oldest), where a key fell out
  unfoldable pub drop_oldest : Option K → Dict K V → Dict K V
  drop_oldest none m = m
  drop_oldest (some k) m = erase k m

  -- A write through a pointer that the map holds: nothing if the map no longer has the key.
  unfoldable pub adjust : K → (V → V) → Dict K V → Dict K V
  adjust k f m = elim (lookup k m) [ none ↦ m | some v ↦ insert k (f v) m ]

  -- The order lists exactly the map's keys, each once, and at most `max` of them.
  pub record Tracks (max : ℕ) (order : List K) (m : Dict K V) : Type ℓ where
    pub distinct : Distinct order
    pub bounded : length order ≤ max
    pub keys : (k : K) → is_some (lookup k m) ≡ contains order k

  pub lookup-drop_oldest :
      (o : Option K) (j : K) (m : Dict K V)
      → lookup j (drop_oldest o m)
        ≡ elim o [ none ↦ lookup j m | some k ↦ if k == j then none else lookup j m ]
  unfolding drop_oldest
  lookup-drop_oldest none j m = refl
  lookup-drop_oldest (some k) j m = lookup-erase k j m

  pub lookup-adjust :
      (k j : K) (f : V → V) (m : Dict K V)
      → lookup j (adjust k f m)
        ≡ (if k == j then elim (lookup j m) [ none ↦ none | some v ↦ some (f v) ] else lookup j m)
  unfolding adjust
  lookup-adjust k j f m = elim (Option-cases (lookup k m)) [
    | inl p ↦ ground (arith, e.agrees_iff k j)
    | inr (v, p) ↦ ground (arith, e.agrees_iff k j, lookup-insert k j (f v) m)
  ]

  module _ (max : ℕ) (order : List K) (m : Dict K V) (t : Tracks max order m) where
    module _ (k : K) (v : V) (room : 0 < max) (new : contains order k ≡ false) where
      -- A new key, with the oldest dropped from the map, keeps the index consistent.
      pub push-Tracks :
          Tracks max (push max order k).0 (insert k v (drop_oldest (push max order k).1 m))
      unfolding push
      push-Tracks = record {
        distinct = trim-Distinct max (order ++ k ∷ []) (Distinct-snoc order k t.distinct new);
        bounded =
            trim-bounded max (order ++ k ∷ [])
              (omega (arith, length-append order (k ∷ []), t.bounded));
        keys = λ j.
            rw (lookup-insert, lookup-drop_oldest)
              (ground (
                arith,
                push-contains max order k room new j t.distinct,
                push_kept max order k room new,
                t.keys j,
                e.agrees_iff k j,
              ));
      }

      -- The same where the code writes the map before it drops the oldest.
      pub push_last-Tracks :
          Tracks max (push max order k).0 (drop_oldest (push max order k).1 (insert k v m))
      unfolding push
      push_last-Tracks = record {
        distinct = trim-Distinct max (order ++ k ∷ []) (Distinct-snoc order k t.distinct new);
        bounded =
            trim-bounded max (order ++ k ∷ [])
              (omega (arith, length-append order (k ∷ []), t.bounded));
        keys = λ j. rw lookup-drop_oldest (
            ground (
              arith,
              lookup-insert k j v m,
              push-contains max order k room new j t.distinct,
              push_kept max order k room new,
              t.keys j,
              e.agrees_iff k j,
            ));
      }

    -- Writing to a key that is there, or through a pointer, changes no key.
    pub insert-Tracks : (k : K) (v : V) → contains order k ≡ true → Tracks max order (insert k v m)
    insert-Tracks k v old = record {
      distinct = t.distinct;
      bounded = t.bounded;
      keys = λ j. rw lookup-insert (ground (arith, t.keys j, e.agrees_iff k j));
    }

    pub adjust-Tracks : (k : K) (f : V → V) → Tracks max order (adjust k f m)
    adjust-Tracks k f = record {
      distinct = t.distinct;
      bounded = t.bounded;
      keys = λ j. rw lookup-adjust (ground (arith, t.keys j, e.agrees_iff k j));
    }

    -- Taking a key out of both keeps them in step.
    pub remove-Tracks : (k : K) → Tracks max (remove_first order k) (erase k m)
    remove-Tracks k = record {
      distinct = Distinct-remove_first order k t.distinct;
      bounded = omega (arith, length-remove_first order k, t.bounded);
      keys = λ j.
          rw lookup-erase (
            ground (arith, t.keys j, contains-remove_first order k j t.distinct, e.agrees_iff k j));
    }

pub Tracks-empty {ℓ κ} :
    {K : Type ℓ} {V : Type κ} ⦃e : Eq K⦄ (max : ℕ) → Tracks {K = K} {V = V} max [] []
unfolding lookup
Tracks-empty max = record { distinct = tt; bounded = omega arith; keys = λ j. refl }

-- A key with at most `n` younger ones behind it.
pub record IsRecent {ℓ} {K : Type ℓ} (k : K) (n : ℕ) (order : List K) : Type ℓ where
  pub older : List K
  pub younger : List K
  pub split : order ≡ older ++ k ∷ younger
  pub few : length younger ≤ n

module _ {ℓ} {K : Type ℓ} where
  IsRecent-trim :
      (max n : ℕ) (k : K) (older younger : List K)
      → length younger ≤ n
      → n < max
      → IsRecent k n (trim max (older ++ k ∷ younger)).0
  IsRecent-trim max n k [] younger few h = record {
    older = [];
    younger = younger;
    split = ground arith;
    few = few;
  }
  IsRecent-trim max n k (x ∷ older) younger few h =
      elim (Bool-cases (ltb max (length (x ∷ older ++ k ∷ younger)))) [
        | inl p ↦ record { older = older; younger = younger; split = rw p; few = few }
        | inr p ↦ record { older = x ∷ older; younger = younger; split = rw p; few = few }
      ]

  -- A key that came within the last `max` stays in the order, and grows one older.
  pub IsRecent-push :
      (max n : ℕ) (k j : K) (order : List K)
      → n + 1 < max
      → IsRecent k n order
      → IsRecent k (n + 1) (push max order j).0
  unfolding push
  IsRecent-push max n k j order h r = rw r.split (
      rw append_assoc (
        IsRecent-trim max (n + 1) k r.older (r.younger ++ j ∷ [])
          (omega (arith, length-append r.younger (j ∷ []), r.few)) h))

  pub IsRecent-new :
      (max : ℕ) (k : K) (order : List K) → 0 < max → IsRecent k 0 (push max order k).0
  unfolding push
  IsRecent-new max k order h = IsRecent-trim max 0 k order [] (omega arith) h

pub IsRecent-contains {ℓ} :
    {K : Type ℓ} ⦃e : Eq K⦄ (k : K) (n : ℕ) (order : List K)
    → IsRecent k n order
    → contains order k ≡ true
IsRecent-contains ⦃e⦄ k n order r =
    rw r.split (rw contains-append (ground (arith, e.agrees_iff k k)))
