-- ===== src/Executor/Causal/Reads.antt =====
-- What the indexes of causal.go give back.
use deepaxiom_aura.Base.{
  ℕ, ◌<◌, ◌≡◌, ◌≢◌, refl, ap, sym, ◌∙◌, String, true, false, Option, none, some, List, [], ◌∷◌,
  arith, ◌==◌, string_eq, if◌then◌else◌, length, length-append, Dict, is_some, lookup, insert,
  str_eq_iff, lookup-insert, lookup-erase, Bool-cases, Option-cases, inl, inr, beq_ne, beq_refl,
  map,
}
use deepaxiom_aura.Fifo.{
  push, drop_oldest, lookup-drop_oldest, lookup-adjust, adjust, fell_out, push_kept,
}
use deepaxiom_aura.Executor.Types.{Live}
use deepaxiom_aura.Executor.Causal.{
  CausalIndex, set, get, InFlightIndex, Hop, hop_key, admit_root, record_hop, take, CancelledSet,
  add, has,
}
use deepaxiom_aura.Executor.Causal.Bounds.{Causal-Inv, InFlight-Inv, Cancelled-Inv}

-- The key that a new one pushes out is the oldest, and only when the order is full.
push_spares :
    (max : ℕ) (order : List String) (k j : String)
    → 0 < max
    → ((rest : List String) → order ≡ j ∷ rest → length order < max)
    → k ≢ j
    → fell_out (push max order k).1 j ≡ false
unfolding push
push_spares max [] k j room h n = ground (arith, str_eq_iff k j)
push_spares max (x ∷ xs) k j room h n = elim (Bool-cases (x == j)) [
  | inl e ↦ ground (
    arith,
    h xs (ap (λ y. y ∷ xs) ((str_eq_iff x j).0 e)),
    length-append xs (k ∷ []),
    str_eq_iff x j,
  )
  | inr e ↦ ground arith
]

lookup-drop :
    {V : Type 0} (o : Option String) (j : String) (m : Dict String V)
    → lookup j (drop_oldest o m) ≡ (if fell_out o j then none else lookup j m)
lookup-drop none j m = lookup-drop_oldest none j m
lookup-drop (some k) j m = lookup-drop_oldest (some k) j m

lookup-set :
    (c : CausalIndex) (id root j : String)
    → id ≢ ""
    → root ≢ ""
    → lookup j (set c id root).root ≡ (
        if id == j
        then some root
        else if is_some (lookup id c.root)
        then lookup j c.root
        else if fell_out (push c.max c.order id).1 j
        then none
        else lookup j c.root)
unfolding set
lookup-set c id root j n r =
    rw (beq_ne id "" n, beq_ne root "" r)
      (elim (Bool-cases (is_some (lookup id c.root))) [
        | inl old ↦ rw (old, lookup-insert) refl
        | inr new ↦ rw (new, lookup-insert, lookup-drop) refl
      ])

-- After set of an id and a root, both not empty, the id reads back as the root, and another id that
-- was not the oldest of a full index reads as before.
pub get-set :
    (c : CausalIndex) (id root j : String)
    → Causal-Inv c
    → id ≢ ""
    → root ≢ ""
    → id ≢ j
    → ((rest : List String) → c.order ≡ j ∷ rest → length c.order < c.max)
    → (get (set c id root) id ≡ some root) × (get (set c id root) j ≡ get c j)
unfolding get
get-set c id root j v n r ne old = (
  rw (lookup-set c id root id n r, beq_ne id "" n, beq_refl id),
  rw (lookup-set c id root j n r)
      (ground (arith, push_spares c.max c.order id j v.room old ne, str_eq_iff id j)),
)

abbrev pub dests_of : Option (Dict String Hop) → Dict String Hop
dests_of none = []
dests_of (some d) = d

-- The index has the root, with the destinations that it had.
admitted :
    (f : InFlightIndex) (root : String)
    → InFlight-Inv f
    → (dests : Dict String Hop) × (lookup root (admit_root f root).by_root ≡ some dests)
      × (dests ≡ dests_of (lookup root f.by_root))
unfolding admit_root
admitted f root v = elim (Option-cases (lookup root f.by_root)) [
  | inl new ↦ (
    [],
    rw (new, lookup-drop, lookup-insert)
        (ground (
          arith,
          push_kept f.max f.order root v.room (sym (v.tracks.keys root) ∙ (rw new refl)),
          str_eq_iff root root,
        )),
    rw new,
  )
  | inr (d, old) ↦ (d, rw (old, admit_root) old, rw old)
]

record_hop_skill :
    (f : InFlightIndex) (root : String) (h : Hop) (live : Live)
    → root ≢ ""
    → h.to.skill ≡ some live
    → (record_hop f root h).by_root ≡ adjust root (insert (hop_key h) h) (admit_root f root).by_root
unfolding record_hop
record_hop_skill f root h live n s = ground (arith, str_eq_iff root "")

-- A delivery to a skill in a chain with a root is what a cancel of the chain finds for that
-- destination, and the deliveries to the chain's other destinations stay.
pub record-then-lookup :
    (f : InFlightIndex) (root : String) (h : Hop) (live : Live) (key : String)
    → InFlight-Inv f
    → root ≢ ""
    → h.to.skill ≡ some live
    → lookup key (dests_of (lookup root (record_hop f root h).by_root))
      ≡ (if hop_key h == key then some h else lookup key (dests_of (lookup root f.by_root)))
record-then-lookup f root h live key v n s =
    let (dests, there, same) = admitted f root v in
    rw (record_hop_skill f root h live n s, lookup-adjust, there, beq_refl root)
      (rw lookup-insert (rw same refl))

abbrev pub hops_of : Dict String Hop → List Hop
hops_of dests = map (λ (entry : String × Hop). entry.1) dests

taken :
    (f : InFlightIndex) (root : String)
    → (take f root).1 ≡ hops_of (dests_of (lookup root f.by_root))
unfolding take
taken f root = elim (Option-cases (lookup root f.by_root)) [
  | inl missing ↦ rw (missing, take) refl
  | inr (dests, there) ↦ rw (there, take) refl
]

lookup-take :
    (f : InFlightIndex) (root j : String)
    → lookup j (take f root).0.by_root ≡ (if root == j then none else lookup j f.by_root)
unfolding take
lookup-take f root j = elim (Option-cases (lookup root f.by_root)) [
  | inl missing ↦ rw (missing, take) (ground (arith, str_eq_iff root j))
  | inr (dests, there) ↦ rw (there, take) (lookup-erase root j f.by_root)
]

-- A cancel takes all the hops of its chain, and a second cancel finds none; other chains keep
-- theirs.
pub take_once :
    (f : InFlightIndex) (root other : String)
    → ((take f root).1 ≡ hops_of (dests_of (lookup root f.by_root)))
      × ((take (take f root).0 root).1 ≡ [])
      × ((take (take f root).0 other).1 ≡ (if root == other then [] else (take f other).1))
take_once f root other = (
  taken f root,
  taken (take f root).0 root ∙ rw (lookup-take, beq_refl root) refl,
  rw (taken, lookup-take)
      (elim (Bool-cases (root == other)) [
        | inl same ↦ rw same refl
        | inr differ ↦ rw differ (sym (taken f other))
      ]),
)

-- An abandoned root is found.
pub has-added :
    (c : CancelledSet) (root : String) → Cancelled-Inv c → root ≢ "" → has (add c root) root ≡ true
unfolding has add
has-added c root v n = rw (beq_ne root "" n) (elim (Bool-cases (is_some (lookup root c.seen))) [
  | inl old ↦ rw old old
  | inr new ↦
      rw (new, lookup-drop, lookup-insert)
        (ground (
          arith,
          push_kept c.max c.order root v.room (sym (v.tracks.keys root) ∙ new),
          str_eq_iff root root,
        ))
])

-- An abandoned root that is not empty is found, and so is a root that was found before and was not
-- the oldest of a full set.
pub has-add :
    (c : CancelledSet) (root j : String)
    → Cancelled-Inv c
    → root ≢ ""
    → ((rest : List String) → c.order ≡ j ∷ rest → length c.order < c.max)
    → has c j ≡ true
    → (has (add c root) root ≡ true) × (has (add c root) j ≡ true)
unfolding has add
has-add c root j v n spare h =
    rw (beq_ne root "" n) (elim (Bool-cases (is_some (lookup root c.seen))) [
      | inl old ↦ rw old (old, h)
      | inr new ↦
          rw (new, lookup-drop, lookup-insert)
            (
              ground (
                arith,
                push_kept c.max c.order root v.room (sym (v.tracks.keys root) ∙ new),
                str_eq_iff root root,
              ),
              rw (lookup-drop, lookup-insert)
                  (elim (Bool-cases (root == j)) [
                    | inl same ↦ ground (
                      arith,
                      push_kept c.max c.order root v.room (sym (v.tracks.keys root) ∙ new),
                      str_eq_iff root j,
                    )
                    | inr differ ↦ ground (
                      arith,
                      push_spares c.max c.order root j v.room spare
                          (λ e. ground (arith, str_eq_iff root j)),
                    )
                  ]),
            )
    ])
