-- ===== src/Ledger/Merkle/Inclusion/Sound.antt =====
-- What an accepted proof says: `VerifyInclusion` of merkle.go cannot be talked into another leaf without
-- a collision of the interior hash.
use deepaxiom_aura.Base.{
  ℕ, ◌-◌, ◌<◌, ◌≡◌, refl, ap, sym, ◌∙◌, ◌⊎◌, inl, inr, true, ◌||◌, Bool-cases, Option-cases, none,
  some, List, [], ◌∷◌, length, get_elem?, Eq, ◌==◌, get_elem?_some, arith, nat_beq, odd,
}
use deepaxiom_aura.Ledger.Merkle.{Walk, strip, absorb, absorb_all, verify_inclusion, merkle_root}
use deepaxiom_aura.Ledger.Merkle.Inclusion.Walks.{at}
use deepaxiom_aura.Ledger.Merkle.Inclusion.Accept.{walk_home}
use deepaxiom_aura.Ledger.Merkle.Inclusion.Paths.{path_Audit}

-- Two different pairs of nodes with one interior hash.
abbrev pub Collision : {Hash : Type 0} → (Hash → Hash → Hash) → Type 0
Collision {Hash} interior =
    (a : Hash) × (b : Hash) × (c : Hash) × (d : Hash) × (interior a b ≡ interior c d)
    × (¬ ((a ≡ c) × (b ≡ d)))

module _ {Hash : Type 0} ⦃e : Eq Hash⦄ (interior : Hash → Hash → Hash) (empty_root : Hash) where
  same_or_collide :
      (c d s t : Hash)
      → (interior c s ≡ interior d t) ⊎ (interior s c ≡ interior t d)
      → (c ≡ d) ⊎ Collision interior
  same_or_collide c d s t h = elim (Bool-cases (c == d)) [
    | inl eq ↦ inl (ground (arith, e.agrees_iff c d))
    | inr ne ↦
        let apart : ¬ (c ≡ d) = λ (q : c ≡ d). absurd (ground (arith, e.agrees_iff c d)) in
        elim h [
          | inl hc ↦ inr (c, s, d, t, hc, λ q. apart q.0)
          | inr hc ↦ inr (s, c, t, d, hc, λ q. apart q.1)
        ]
  ]

  -- One round from the same position moves to the same position, and equal results come from equal hashes.
  absorb_twice :
      (fn sn : ℕ) (c d x y : Hash) (w v : Walk Hash)
      → absorb interior empty_root (at interior empty_root fn sn c) x ≡ some w
      → absorb interior empty_root (at interior empty_root fn sn d) y ≡ some v
      → (w.fn ≡ v.fn) × (w.sn ≡ v.sn) × (w.computed ≡ v.computed → (c ≡ d) ⊎ Collision interior)
  unfolding absorb
  absorb_twice fn sn c d x y w v hw hv = elim (Bool-cases (nat_beq sn 0)) [
    | inl z ↦ absurd (ground arith)
    | inr nz ↦ elim (Bool-cases (odd fn || nat_beq fn sn)) [
      | inl r ↦
          let (f, s) = strip fn fn sn in
          let wc : w.computed ≡ interior x c = ground arith in
          let vc : v.computed ≡ interior y d = ground arith in
          (ground arith, ground arith, λ q. same_or_collide c d x y (inr (sym wc ∙ q ∙ vc)))
      | inr l ↦
          let wc : w.computed ≡ interior c x = ground arith in
          let vc : v.computed ≡ interior d y = ground arith in
          (ground arith, ground arith, λ q. same_or_collide c d x y (inl (sym wc ∙ q ∙ vc)))
    ]
  ]

  -- At sn = 0 there is no further round.
  absorb_end :
      (fn sn : ℕ) (c x : Hash)
      → sn ≡ 0
      → absorb interior empty_root (at interior empty_root fn sn c) x ≡ none
  unfolding absorb
  absorb_end fn sn c x z = ground arith

  walk_twice :
      (fn sn : ℕ) (c d : Hash) (p q : List Hash) (w v : Walk Hash)
      → absorb_all interior empty_root (at interior empty_root fn sn c) p ≡ some w
      → absorb_all interior empty_root (at interior empty_root fn sn d) q ≡ some v
      → w.sn ≡ 0
      → v.sn ≡ 0
      → w.computed ≡ v.computed
      → (c ≡ d) ⊎ Collision interior
  unfolding absorb_all
  walk_twice fn sn c d [] [] w v hw hv zw zv same = inl (ground arith)
  walk_twice fn sn c d [] (y ∷ q) w v hw hv zw zv same =
      absurd (ground (arith, absorb_end fn sn d y))
  walk_twice fn sn c d (x ∷ p) [] w v hw hv zw zv same =
      absurd (ground (arith, absorb_end fn sn c x))
  walk_twice fn sn c d (x ∷ p) (y ∷ q) w v hw hv zw zv same =
      elim (Option-cases (absorb interior empty_root (at interior empty_root fn sn c) x)) [
        | inl e1 ↦ absurd (ground (arith, e1))
        | inr (w', e1) ↦
            elim (Option-cases (absorb interior empty_root (at interior empty_root fn sn d) y)) [
              | inl e2 ↦ absurd (ground (arith, e2))
              | inr (v', e2) ↦
                  let (ef, es, back) = absorb_twice fn sn c d x y w' v' e1 e2 in
                  let hw' = rw (absorb_all, e1) at hw in
                  let hv' = rw (absorb_all, e2, ← ef, ← es) at hv in
                  elim (walk_twice w'.fn w'.sn w'.computed v'.computed p q w v hw' hv' zw zv same) [
                    | inl eq ↦ back eq
                    | inr clash ↦ inr clash
                  ]
            ]
      ]

  -- For every list of leaves, if verify_inclusion accepts some proof that a leaf is at an index
  -- under the head merkle_root of the leaves and their number, then it is the leaf at that index, or
  -- two different pairs of nodes have one interior hash.
  pub inclusion_sound :
      (leaves : List Hash) (i : ℕ) (leaf : Hash) (proof : List Hash)
      → verify_inclusion interior empty_root leaf i
          (length leaves)
          proof
          (merkle_root interior empty_root leaves)
        ≡ true
      → (get_elem? leaves i ≡ some leaf) ⊎ Collision interior
  unfolding verify_inclusion
  inclusion_sound leaves i leaf proof accepted =
      let root = merkle_root interior empty_root leaves in
      let below : i < length leaves = ground (arith, accepted) in
      elim (Option-cases (get_elem? leaves i)) [
        | inl missing ↦ absurd (get_elem?_some leaves i below missing)
        | inr (held, found) ↦
            elim (Option-cases (
              absorb_all interior empty_root (at interior empty_root i (length leaves - 1) leaf)
                proof)) [
                  | inl e1 ↦ absurd (ground (arith, accepted, e1))
                  | inr (w, e1) ↦
                      let zero_left : w.sn ≡ 0 = ground (arith, accepted, e1) in
                      let head : w.computed ≡ root =
                        ground (arith, accepted, e1, e.agrees_iff w.computed root) in
                      let home = walk_home interior empty_root (
                        path_Audit interior empty_root held (length leaves) leaves i (omega arith)
                          found) in
                      elim (walk_twice i (length leaves - 1) leaf held proof _ w _ e1 home zero_left
                        refl head) [
                          | inl same ↦ inl (found ∙ ap some (sym same))
                          | inr clash ↦ inr clash
                        ]
                ]
      ]
