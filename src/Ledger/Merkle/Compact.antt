-- ===== src/Ledger/Merkle/Compact.antt =====
-- `CompactTree` of merkle.go: the head that it keeps in memory is the head of all the leaves.
use deepaxiom_aura.Base.{
  ℕ, suc, ◌+◌, ◌/◌, ◌<◌, ◌≤◌, ◌≡◌, refl, ap₂, sym, ◌∙◌, true, false, Option, none, some, List, [],
  ◌∷◌, ◌++◌, append_assoc, append-nil, length, length-append, pow2, pow2_pos, arith, odd,
}
use deepaxiom_aura.Ledger.Merkle.{
  merkle_root, root_fuel, carry_up, append_leaf, fold_levels, tree_root, CompactTree, new_tree,
}
use deepaxiom_aura.Ledger.Merkle.Root.{root-append}

half_even : (n : ℕ) → odd n ≡ false → (n + 1) / 2 ≡ n / 2
half_even n h = ground arith

half_odd : (n : ℕ) → odd n ≡ true → (n + 1) / 2 ≡ n / 2 + 1
half_odd n h = ground arith

module _ {Hash : Type 0} (interior : Hash → Hash → Hash) (empty_root : Hash) where
  abbrev root : List Hash → Hash
  root = merkle_root interior empty_root

  -- The levels from 2^m up hold these leaves: a live level the perfect subtree that ends them, and
  -- the levels above it the leaves before.
  pub data Levels : ℕ → ℕ → List Hash → List Hash → Type 0 where
    top : {m size : ℕ} → size ≡ 0 → Levels m size [] []
    dead :
        {m size : ℕ} {x : Hash} {xs leaves : List Hash}
        → odd size ≡ false
        → Levels (suc m) (size / 2) xs leaves
        → Levels m size (x ∷ xs) leaves
    live :
        {m size : ℕ} {xs before all : List Hash} (chunk : List Hash) {x : Hash}
        → odd size ≡ true
        → length chunk ≡ pow2 m
        → x ≡ root chunk
        → all ≡ before ++ chunk
        → Levels (suc m) (size / 2) xs before
        → Levels m size (x ∷ xs) all

  -- Carrying a perfect subtree into the levels puts its leaves behind theirs.
  carry_up-Levels :
      {m size : ℕ} {nodes leaves : List Hash}
      → Levels m size nodes leaves
      → (chunk : List Hash) (carry : Hash) → length chunk ≡ pow2 m
      → carry ≡ root chunk
      → (nodes' : List Hash) × (carry_up interior empty_root size carry nodes ≡ some nodes')
        × Levels m (size + 1) nodes' (leaves ++ chunk)
  unfolding carry_up
  carry_up-Levels {m} {size} (top e) chunk carry perfect head =
      (carry ∷ [], ground arith, live chunk ground arith perfect head refl (top (omega arith)))
  carry_up-Levels {m} {size} (dead {x = x} {xs = xs} even up) chunk carry perfect head = (
    carry ∷ xs,
    ground arith,
    live chunk ground arith perfect head refl (rw (half_even size even) up),
  )
  carry_up-Levels {m} {size}
        (live {xs = xs} {before = before} other {x = x} od perfect' head' split up) chunk carry
        perfect head =
      let (ys, e, up') =
        carry_up-Levels up (other ++ chunk) (interior x carry)
          (omega (arith, length-append other chunk))
          (ap₂ interior head' head
            ∙ sym (
                root-append interior empty_root m other chunk perfect' (omega (arith, pow2_pos m))
                  (omega arith))) in
      (x ∷ ys, ground arith, dead (ground arith) (rw (split, append_assoc, half_odd size od) up'))

  -- Folding the levels over what stands behind their leaves.
  fold-Levels :
      {m size : ℕ} {nodes leaves : List Hash}
      → Levels m size nodes leaves
      → (behind : List Hash) → 0 < length behind
      → length behind ≤ pow2 m
      → fold_levels interior empty_root size nodes (some (root behind))
        ≡ some (root (leaves ++ behind))
  unfolding fold_levels
  fold-Levels (top e) behind some_behind few = refl
  fold-Levels {m} {size} (dead even up) behind some_behind few =
      rw even (fold-Levels up behind some_behind (omega arith))
  fold-Levels {m} {size} (live {before = before} chunk od perfect head split up) behind some_behind
        few =
      rw (od, head, split, append_assoc)
        (rw (← root-append interior empty_root m chunk behind perfect some_behind few) (
          fold-Levels up (chunk ++ behind) (omega (arith, length-append chunk behind))
            (omega (arith, length-append chunk behind))))

  fold-Levels-none :
      {m size : ℕ} {nodes leaves : List Hash}
      → Levels m size nodes leaves
      → 0 < size
      → fold_levels interior empty_root size nodes none ≡ some (root leaves)
  unfolding fold_levels
  fold-Levels-none (top e) h = absurd (omega arith)
  fold-Levels-none {m} {size} (dead even up) h = rw even (fold-Levels-none up (ground arith))
  fold-Levels-none {m} {size} (live {before = before} chunk od perfect head split up) h =
      rw (od, head, split) (fold-Levels up chunk (omega (arith, pow2_pos m)) (omega arith))

  -- A tree that holds these leaves.
  pub record Holds (t : CompactTree Hash) (leaves : List Hash) : Type 0 where
    pub levels : Levels 0 t.size t.nodes leaves
    pub counted : t.size ≡ length leaves

  -- `Append` for each leaf in turn.
  unfoldable pub append_all : CompactTree Hash → List Hash → Option (CompactTree Hash)
  append_all t [] = some t
  append_all t (leaf ∷ rest) = elim (append_leaf interior empty_root t leaf) [
    | none ↦ none
    | some t' ↦ append_all t' rest
  ]

  pub append_leaf-Holds :
      (t : CompactTree Hash) (leaves : List Hash) (leaf : Hash)
      → Holds t leaves
      → (t' : CompactTree Hash) × (append_leaf interior empty_root t leaf ≡ some t')
        × Holds t' (leaves ++ leaf ∷ [])
  unfolding append_leaf merkle_root root_fuel
  append_leaf-Holds t leaves leaf h =
      let (nodes', e, up) = carry_up-Levels h.levels (leaf ∷ []) leaf refl refl in
      (
        record { size = t.size + 1; nodes = nodes' },
        rw (e, append_leaf) refl,
        record {
          levels = up;
          counted = omega (arith, length-append leaves (leaf ∷ []), h.counted);
        },
      )

  append_all-Holds :
      (t : CompactTree Hash) (before leaves : List Hash)
      → Holds t before
      → (t' : CompactTree Hash) × (append_all t leaves ≡ some t') × Holds t' (before ++ leaves)
  unfolding append_all
  append_all-Holds t before [] h = (t, refl, rw append-nil h)
  append_all-Holds t before (leaf ∷ rest) h =
      let (t', e, h') = append_leaf-Holds t before leaf h in
      let (t'', e', h'') = append_all-Holds t' (before ++ leaf ∷ []) rest h' in
      (t'', rw (e, append_all) e', rw (← append_assoc before (leaf ∷ []) rest) h'')

  -- A tree that holds leaves has their head.
  pub tree_root-Holds :
      (t : CompactTree Hash) (leaves : List Hash)
      → Holds t leaves
      → tree_root interior empty_root t ≡ root leaves
  unfolding tree_root merkle_root root_fuel
  tree_root-Holds t [] h = ground (arith, h.counted)
  tree_root-Holds t (x ∷ xs) h =
      let some_leaves : 0 < t.size = omega (arith, h.counted) in
      ground (arith, fold-Levels-none h.levels some_leaves)

  -- However many leaves are appended to a new compact tree, no append fails, and the head that the
  -- tree computes from its levels is the Merkle root of all the leaves, recomputed from the whole
  -- list.
  pub compact-root :
      (leaves : List Hash)
      → (t : CompactTree Hash) × (append_all new_tree leaves ≡ some t)
        × (t.size ≡ length leaves)
        × (tree_root interior empty_root t ≡ merkle_root interior empty_root leaves)
  compact-root leaves =
      let (t, e, h) =
        append_all-Holds new_tree [] leaves (record { levels = top refl; counted = refl }) in
      (t, e, h.counted, tree_root-Holds t leaves h)
