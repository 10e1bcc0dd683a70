-- ===== src/Executor/Causal/Silence.antt =====
-- `attestIndex` of causal.go drops no attestation of a chain without a word.
use deepaxiom_aura.Base.{
  ℕ, not, ◌⊎◌, append-nil, ◌≤◌, ◌≡◌, ◌≢◌, sym, ◌∙◌, String, Bool, true, false, ◌||◌, List, [], ◌∷◌,
  ◌++◌, arith, ◌==◌, string_eq, length, length-append, contains, contains-append, is_some, lookup,
  str_eq_iff, leb, Bool-cases, inl, inr, beq_ne,
}
use deepaxiom_aura.Fifo.{push, push-contains, drop_oldest, fell_out}
use deepaxiom_aura.Executor.Causal.{AttestIndex, attest_add, attest_get, slice_at, bool_at}
use deepaxiom_aura.Executor.Causal.Attest.{
  Attest-Inv, add_more, add_first, add_cases, slice-insert, bool-insert, slice-drop, bool-drop,
  slice_missing,
}

-- A key falls out only of an order that is full.
push_full :
    (max : ℕ) (order : List String) (k j : String)
    → fell_out (push max order k).1 j ≡ true
    → max ≤ length order
unfolding push
push_full max [] k j h = ground (arith, h)
push_full max (x ∷ xs) k j h = ground (arith, h, length-append xs (k ∷ []))

-- What is read of a chain after one more attestation: all that was, then perhaps more, and whether all is
-- there.
abbrev pub Kept : List String × Bool → List String × Bool → String → Type 0
Kept (old, cut) (hashes, truncated) hash =
    ((later : List String) × (hashes ≡ old ++ later))
    × ((contains hashes hash || truncated) ≡ true)
    × ((not cut || truncated) ≡ true)

module _ (a : AttestIndex) (root hash : String) (v : Attest-Inv a) where
  -- What `attest_get` reads of a chain that is named.
  abbrev reading : AttestIndex → String → List String × Bool
  reading x r = (slice_at r x.hashes, bool_at r x.truncated)

  add_more-Kept : Kept (reading a root) (reading (add_more a root hash) root) hash
  add_more-Kept = elim (Bool-cases (contains (slice_at root a.hashes) hash)) [
    | inl dup ↦ rw dup (([], sym (append-nil _)), ground (arith, dup), ground arith)
    | inr fresh ↦ elim (Bool-cases (leb a.max_per_root (length (slice_at root a.hashes)))) [
      | inl full ↦
          let cut = bool-insert root root true a.truncated in
          rw (fresh, full)
            (
              ([], sym (append-nil _)),
              ground (arith, cut, str_eq_iff root root),
              ground (arith, cut, str_eq_iff root root),
            )
      | inr spare ↦
          let more = slice-insert root root (slice_at root a.hashes ++ hash ∷ []) a.hashes in
          rw (fresh, spare)
            (
              (hash ∷ [], ground (arith, more, str_eq_iff root root)),
              ground (
                arith,
                more,
                contains-append (slice_at root a.hashes) (hash ∷ []) hash,
                str_eq_iff root root,
                str_eq_iff hash hash,
              ),
              ground arith,
            )
    ]
  ]

  add_first-Kept :
      is_some (lookup root a.hashes) ≡ false
      → Kept (reading a root) (reading (add_first a root hash) root) hash
  add_first-Kept new =
      let none_yet = slice_missing root a.hashes new in
      let one =
        slice-insert root root (hash ∷ []) (drop_oldest (push a.max a.order root).1 a.hashes) in
      (
        (hash ∷ [], ground (arith, one, none_yet, str_eq_iff root root)),
        ground (arith, one, str_eq_iff root root, str_eq_iff hash hash),
        ground (arith, v.marked root, none_yet, v.room_per_root),
      )

  add_more_others :
      (other : String) → root ≢ other → reading (add_more a root hash) other ≡ reading a other
  add_more_others other ne = ground (
    arith,
    ne,
    str_eq_iff root other,
    slice-insert root other (slice_at root a.hashes ++ hash ∷ []) a.hashes,
    bool-insert root other true a.truncated,
  )

  -- A chain that a new one pushes out was the oldest of a full index.
  add_first_others :
      (other : String)
      → root ≢ other
      → is_some (lookup root a.hashes) ≡ false
      → (reading (add_first a root hash) other ≡ reading a other)
        ⊎ ((length a.order ≡ a.max)
            × (contains (add_first a root hash).order other ≡ false)
            × (reading (add_first a root hash) other ≡ ([], false)))
  add_first_others other ne new =
      let fell = (push a.max a.order root).1 in
      let apart : (root == other) ≡ false = ground (arith, ne, str_eq_iff root other) in
      let hashes = slice-insert root other (hash ∷ []) (drop_oldest fell a.hashes) in
      let left = slice-drop fell other a.hashes in
      let cut = bool-drop fell other a.truncated in
      elim (Bool-cases (fell_out fell other)) [
        | inr stays ↦ inl (ground (arith, hashes, left, cut, apart, stays))
        | inl gone ↦ inr (
          omega (arith, push_full a.max a.order root other gone, v.tracks.bounded),
          ground (
            arith,
            gone,
            apart,
            push-contains a.max a.order root v.room (sym (v.tracks.keys root) ∙ new) other
                v.tracks.distinct,
          ),
          ground (arith, hashes, left, cut, apart, gone),
        )
      ]

-- In an index that is well-formed, after an attestation is recorded for a chain, both not empty,
-- every attestation that was read of the chain is still read, in its order and before what is new,
-- the recorded one is read too or the chain is read as truncated, and a chain that was read as
-- truncated still is.
pub attest_never_silent :
    (a : AttestIndex) (root hash : String)
    → Attest-Inv a
    → root ≢ ""
    → hash ≢ ""
    → Kept (attest_get a root) (attest_get (attest_add a root hash) root) hash
unfolding attest_get
attest_never_silent a root hash v r h =
    rw (add_cases a root hash v.room_per_root, beq_ne root "" r, beq_ne hash "" h)
      (elim (Bool-cases (is_some (lookup root a.hashes))) [
        | inl old ↦ rw old (add_more-Kept a root hash v)
        | inr new ↦ rw new (add_first-Kept a root hash v new)
      ])

-- a
pub attest_others_kept :
    (a : AttestIndex) (root hash other : String)
    → Attest-Inv a
    → root ≢ ""
    → hash ≢ ""
    → root ≢ other
    → other ≢ ""
    → let a' = attest_add a root hash in
      (attest_get a' other ≡ attest_get a other)
      ⊎ ((length a.order ≡ a.max)
          × (contains a'.order other ≡ false)
          × (attest_get a' other ≡ ([], false)))
unfolding attest_get
attest_others_kept a root hash other v named given ne elsewhere =
    rw
      (
        add_cases a root hash v.room_per_root,
        beq_ne root "" named,
        beq_ne hash "" given,
        beq_ne other "" elsewhere,
      )
      (elim (Bool-cases (is_some (lookup root a.hashes))) [
        | inl old ↦ rw old (inl (add_more_others a root hash v other ne))
        | inr new ↦ rw new (add_first_others a root hash v other ne new)
      ])
