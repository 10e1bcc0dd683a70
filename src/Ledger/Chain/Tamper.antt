-- ===== src/Ledger/Chain/Tamper.antt =====
-- What a chain that verifies fixes: the walk of verify.go over two lists of rows.
use deepaxiom_aura.Base.{
  ◌≡◌, refl, sym, ap, ap₂, ◌∙◌, String, some, ◌⊎◌, inl, inr, List, [], ◌∷◌, ◌==◌, string_eq, Eq,
  str_eq_iff, ◌+++◌, map, arith, Bool-cases, Option-cases, Sum-cases, length,
}
use deepaxiom_aura.Ledger.Merkle.{append_leaf}
use deepaxiom_aura.Ledger.Records.{Outside, Entry, Broken, Walked, start}
use deepaxiom_aura.Ledger.Chain.{entry_hash, check_row, check_rows, verify_chain}

-- Two different texts that an entry's hash does not tell apart.
abbrev pub HashCollision : {Raw : Type 0} → (Raw → String) → Type 0
HashCollision {Raw} sha256_hex =
    (a : Raw) × (b : Raw) × ("sha256:" +++ sha256_hex a ≡ "sha256:" +++ sha256_hex b) × (¬ (a ≡ b))

module _ {Approval Hash Raw : Type 0} (env : Outside Approval Hash Raw) ⦃raw_eq : Eq Raw⦄ where
  abbrev rows_of : Walked Hash → List Raw → Broken ⊎ Walked Hash
  rows_of v rows = check_rows env v rows

  abbrev row_of : Walked Hash → Raw → Broken ⊎ Walked Hash
  row_of v row = check_row env v row

  abbrev digest : Entry Approval → String
  digest e = entry_hash env e

  -- A row that is accepted is an entry that names the head before it and hashes to the head after it.
  accepted_row :
      (v w : Walked Hash) (row : Raw)
      → row_of v row ≡ inr w
      → (e : Entry Approval) × (env.unmarshal row ≡ some e)
        × (e.prev ≡ v.head)
        × (w.head ≡ digest e)
  unfolding check_row
  accepted_row v w row h = elim (Option-cases (env.unmarshal row)) [
    | inl bad ↦ absurd (ground (arith, h, bad))
    | inr (e, read) ↦
        elim (Option-cases (append_leaf env.interior env.empty_root v.tree (env.leaf_hash row))) [
          | inl failed ↦ absurd (ground (arith, h, read, failed))
          | inr (tree', grew) ↦ (
            e,
            read,
            ground (arith, h, read, grew, str_eq_iff e.prev v.head),
            ground (arith, h, read, grew),
          )
        ]
  ]

  same_entry :
      (e f : Entry Approval)
      → ((d : Entry Approval) → env.unmarshal (env.marshal d) ≡ some d)
      → digest e ≡ digest f
      → (e ≡ f) ⊎ HashCollision env.sha256_hex
  unfolding entry_hash
  same_entry e f read h = elim (Bool-cases (env.marshal e == env.marshal f)) [
    | inl eq ↦
        let texts : env.marshal e ≡ env.marshal f =
          ground (arith, raw_eq.agrees_iff (env.marshal e) (env.marshal f)) in
        let both : some e ≡ some f = sym (read e) ∙ ap env.unmarshal texts ∙ read f in
        inl (ground (arith, both))
    | inr ne ↦ inr (
      env.marshal e,
      env.marshal f,
      h,
      λ (q : env.marshal e ≡ env.marshal f).
          absurd (ground (arith, raw_eq.agrees_iff (env.marshal e) (env.marshal f))),
    )
  ]

  one_past :
      (rows others : List Raw) (v v' w w' : Walked Hash)
      → ((d : Entry Approval) → env.unmarshal (env.marshal d) ≡ some d)
      → rows_of v rows ≡ inr w
      → rows_of v' others ≡ inr w'
      → length rows ≡ length others
      → w.head ≡ w'.head
      → ((map env.unmarshal rows ≡ map env.unmarshal others) × (v.head ≡ v'.head))
        ⊎ HashCollision env.sha256_hex
  unfolding check_rows
  one_past [] [] v v' w w' read h h' long same = inl (refl, ground (arith, h, h'))
  one_past [] (_ ∷ _) v v' w w' read h h' long same = absurd (omega arith)
  one_past (_ ∷ _) [] v v' w w' read h h' long same = absurd (omega arith)
  one_past (r ∷ rows) (o ∷ others) v v' w w' read h h' long same = elim (Sum-cases (row_of v r)) [
    | inl (b, e) ↦ absurd (ground (arith, h, e))
    | inr (u, e) ↦ elim (Sum-cases (row_of v' o)) [
      | inl (b, e') ↦ absurd (ground (arith, h', e'))
      | inr (u', e') ↦
          elim (one_past rows others u u' w w' read (rw (check_rows, e) at h)
            (rw (check_rows, e') at h') (omega arith) same) [
              | inr clash ↦ inr clash
              | inl (rest, heads) ↦
                  let (a, ra, pa, ha) = accepted_row v u r e in
                  let (b, rb, pb, hb) = accepted_row v' u' o e' in
                  elim (same_entry a b read (sym ha ∙ heads ∙ hb)) [
                    | inr clash ↦ inr clash
                    | inl one ↦ inl (
                      ap₂ (λ x y. x ∷ y) (ra ∙ ap some one ∙ sym rb) rest,
                      sym pa ∙ ap (λ (d : Entry Approval). d.prev) one ∙ pb,
                    )
                  ]
            ]
    ]
  ]

  -- Where the JSON of an entry reads back as the entry: if verify_chain accepts two lists of rows of
  -- one length and ends at one head, the two hold the same entries in the same order, or two
  -- different rows have one hash.
  pub head_fixes_history :
      (rows others : List Raw) (w w' : Walked Hash)
      → ((d : Entry Approval) → env.unmarshal (env.marshal d) ≡ some d)
      → verify_chain env rows ≡ inr w
      → verify_chain env others ≡ inr w'
      → length rows ≡ length others
      → w.head ≡ w'.head
      → (map env.unmarshal rows ≡ map env.unmarshal others) ⊎ HashCollision env.sha256_hex
  unfolding verify_chain
  head_fixes_history rows others w w' read h h' long same =
      elim (one_past rows others start start w w' read h h' long same) [
        | inl (all, _) ↦ inl all
        | inr clash ↦ inr clash
      ]
