-- ===== src/Ledger/Verify/Observations.antt =====
-- What the walk of `Verify` (kernel/internal/ledger/verify.go) gathers is true of the rows.
use deepaxiom_aura.Base.{
  ℕ, ◌+◌, ◌≤◌, ◌≡◌, sym, ap, ◌∙◌, subst, String, none, some, inl, inr, List, [], ◌∷◌, ◌++◌, ◌==◌,
  string_eq, nat_eq, str_eq_iff, nat_beq, map, arith, Bool-cases, Option-cases, Sum-cases, length,
  take, get_elem?, get_elem?-before, get_elem?-last, take-before, take_whole, map_snoc, contains,
  lookup, lookup-insert, append_assoc, append-nil, length-append,
}
use deepaxiom_aura.Ledger.Merkle.{append_leaf, tree_root, merkle_root}
use deepaxiom_aura.Ledger.Merkle.Compact.{Holds, append_leaf-Holds, tree_root-Holds}
use deepaxiom_aura.Ledger.Records.{Outside, Entry, Walked}
use deepaxiom_aura.Ledger.Chain.{entry_hash, check_row, check_rows}
use deepaxiom_aura.Ledger.Verify.{Observed, note_row, observe, observe_all}

module _ {Approval Hash Raw : Type 0} (env : Outside Approval Hash Raw) where
  -- An entry of these rows, in the place that its number names, with this hash.
  abbrev pub StandsIn : List Raw → String → Entry Approval → Type 0
  StandsIn rows hash e =
      (i : ℕ) × (row : Raw) × (get_elem? rows i ≡ some row)
      × (env.unmarshal row ≡ some e)
      × (e.seq ≡ i + 1)
      × (entry_hash env e ≡ hash)

  abbrev pub head_of : List Raw → Hash
  head_of rows = merkle_root env.interior env.empty_root (map env.leaf_hash rows)

  -- What the walk has gathered from the rows that it has passed.
  pub record IsTrueOf (passed : List Raw) (o : Observed Approval Hash) : Type 0 where
    pub position : o.walked.position ≡ length passed
    pub holds : Holds env.interior env.empty_root o.walked.tree (map env.leaf_hash passed)
    pub by_hash :
        (hash : String) (e : Entry Approval)
        → lookup hash o.by_hash ≡ some e
        → StandsIn passed hash e
    pub root_at :
        (n : ℕ) (h : Hash)
        → lookup n o.root_at ≡ some h
        → (n ≤ length passed) × (h ≡ head_of (take n passed))

  -- What a row that is accepted does to the walk.
  accepted :
      (v w : Walked Hash) (row : Raw)
      → check_row env v row ≡ inr w
      → (e : Entry Approval) × (env.unmarshal row ≡ some e)
        × (e.seq ≡ v.position + 1)
        × (w.position ≡ v.position + 1)
        × (w.head ≡ entry_hash env e)
        × (append_leaf env.interior env.empty_root v.tree (env.leaf_hash row) ≡ some w.tree)
  unfolding check_row
  accepted v w row h = elim (Option-cases (env.unmarshal row)) [
    | inl bad ↦ absurd (ground (arith, h, bad))
    | inr (e, read) ↦
        elim (Option-cases (append_leaf env.interior env.empty_root v.tree (env.leaf_hash row))) [
          | inl failed ↦ absurd (ground (arith, h, read, failed))
          | inr (tree', grew) ↦ (
            e,
            read,
            ground (arith, h, read, grew),
            ground (arith, h, read, grew),
            ground (arith, h, read, grew),
            ground (arith, h, read, grew),
          )
        ]
  ]

  StandsIn-snoc :
      (passed : List Raw) (row : Raw) (hash : String) (e : Entry Approval)
      → StandsIn passed hash e
      → StandsIn (passed ++ row ∷ []) hash e
  StandsIn-snoc passed row hash e (i, r, at, read, seq, same) =
      (i, r, get_elem?-before passed (row ∷ []) i r at, read, seq, same)

  head_of-snoc :
      (passed : List Raw) (row : Raw) (n : ℕ) (h : Hash)
      → (n ≤ length passed) × (h ≡ head_of (take n passed))
      → (n ≤ length (passed ++ row ∷ [])) × (h ≡ head_of (take n (passed ++ row ∷ [])))
  head_of-snoc passed row n h (low, same) = (
    omega (arith, low, length-append passed (row ∷ [])),
    same ∙ ap head_of (sym (take-before passed (row ∷ []) n low)),
  )

  note_row-IsTrueOf :
      (wanted : List ℕ) (passed : List Raw) (row : Raw) (o : Observed Approval Hash)
      (v : Walked Hash) (e : Entry Approval)
      → IsTrueOf passed o
      → check_row env o.walked row ≡ inr v
      → env.unmarshal row ≡ some e
      → IsTrueOf (passed ++ row ∷ []) (note_row env wanted o v e)
  unfolding note_row
  note_row-IsTrueOf wanted passed row o v e t ok read =
      let (d, read', seq, pos, head, grew) = accepted o.walked v row ok in
      let same : d ≡ e = ground (arith, read, read') in
      let (tree', grew', holds') =
        append_leaf-Holds env.interior env.empty_root o.walked.tree (map env.leaf_hash passed)
          (env.leaf_hash row) t.holds in
      let trees : tree' ≡ v.tree = ground (arith, grew, grew') in
      let holds'' : Holds env.interior env.empty_root v.tree
          (map env.leaf_hash (passed ++ row ∷ [])) =
        rw map_snoc (
          subst
            (λ x.
              Holds env.interior env.empty_root x
                (map env.leaf_hash passed ++ env.leaf_hash row ∷ []))
            trees holds') in
      let here : StandsIn (passed ++ row ∷ []) v.head e = (
        length passed,
        row,
        get_elem?-last passed row,
        read,
        ap (λ (x : Entry Approval). x.seq) (sym same) ∙ seq ∙ ap (λ n. n + 1) t.position,
        ap (entry_hash env) (sym same) ∙ sym head,
      ) in
      let root = tree_root env.interior env.empty_root v.tree in
      record {
        position = omega (arith, pos, t.position, length-append passed (row ∷ []));
        holds = holds'';
        by_hash = λ hash f there. elim (Bool-cases (v.head == hash)) [
          | inl eq ↦
              let whose : v.head ≡ hash = ground (arith, eq, str_eq_iff v.head hash) in
              let which : e ≡ f =
                ground (arith, there, eq, lookup-insert v.head hash e o.by_hash) in
              subst (λ x. StandsIn (passed ++ row ∷ []) x f) whose
                (subst (StandsIn (passed ++ row ∷ []) v.head) which here)
          | inr ne ↦
              StandsIn-snoc passed row hash f (
                t.by_hash hash f (ground (arith, there, ne, lookup-insert v.head hash e o.by_hash)))
        ];
        root_at = λ n h there. elim (Bool-cases (contains wanted e.seq)) [
          | inl asked ↦ elim (Bool-cases (nat_beq e.seq n)) [
            | inl eq ↦
                let what : root ≡ h =
                  ground (arith, there, asked, eq, lookup-insert e.seq n root o.root_at) in
                let long : length (passed ++ row ∷ []) ≡ n =
                  ground (arith, eq, here.4, length-append passed (row ∷ [])) in
                (
                  omega (arith, long),
                  sym what
                      ∙ tree_root-Holds env.interior env.empty_root v.tree _ holds''
                      ∙ ap head_of (
                          sym (take_whole (passed ++ row ∷ []))
                          ∙ ap (λ k. take k (passed ++ row ∷ [])) long),
                )
            | inr ne ↦ head_of-snoc passed row n h (
                t.root_at n h
                  (ground (arith, there, asked, ne, lookup-insert e.seq n root o.root_at)))
          ]
          | inr idle ↦ head_of-snoc passed row n h (t.root_at n h (ground (arith, there, idle)))
        ];
      }

  -- The walk up to its end: the chain is whole, and what was gathered is true of all the rows.
  pub observe_all-IsTrueOf :
      (wanted : List ℕ) (rows passed : List Raw) (o o' : Observed Approval Hash)
      → IsTrueOf passed o
      → observe_all env wanted o rows ≡ (o', none)
      → IsTrueOf (passed ++ rows) o' × (check_rows env o.walked rows ≡ inr o'.walked)
  unfolding observe_all observe note_row check_rows
  observe_all-IsTrueOf wanted [] passed o o' t h =
      let same : o ≡ o' = ground (arith, h) in
      (rw append-nil (subst (IsTrueOf passed) same t), ap (λ x. inr x.walked) same)
  observe_all-IsTrueOf wanted (row ∷ rows) passed o o' t h =
      elim (Sum-cases (check_row env o.walked row)) [
        | inl (broken, bad) ↦ absurd (ground (arith, rw (observe_all, bad) at h))
        | inr (v, ok) ↦
            let (e, read, _, _, _, _) = accepted o.walked v row ok in
            let (t', on) =
              observe_all-IsTrueOf wanted rows (passed ++ row ∷ []) (note_row env wanted o v e) o'
                (note_row-IsTrueOf wanted passed row o v e t ok read)
                (rw (observe_all, ok, read) at h) in
            (rw (← append_assoc passed (row ∷ []) rows) t', rw (check_rows, ok) on)
      ]
