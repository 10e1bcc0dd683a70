-- ===== src/Ledger/Chain/Seal.antt =====
-- Sealing keeps the ledger verifiable: `Seal` of ledger.go against the walk of verify.go.
use deepaxiom_aura.Base.{
  ℕ, ◌+◌, ◌≡◌, refl, sym, ap, ◌∙◌, String, true, some, ◌⊎◌, inl, inr, List, [], ◌∷◌, ◌++◌, ◌==◌,
  string_eq, if◌then◌else◌, nat_beq, map, map_snoc, arith, Bool-cases, Option-cases, Sum-cases,
  beq_refl,
}
use deepaxiom_aura.Ledger.Merkle.{CompactTree, new_tree, append_leaf, tree_root, merkle_root}
use deepaxiom_aura.Ledger.Merkle.Compact.{Holds, top, append_leaf-Holds, tree_root-Holds}
use deepaxiom_aura.Ledger.Records.{
  Outside, SealRequest, Entry, Ledger, SealError, SealReply, sealed, unchecked, unsealed,
  not_stored, approval_unverifiable, World, Broken, Walked, start, approvals_in,
  validate_vocabulary,
}
use deepaxiom_aura.Ledger.Chain.{
  entry_hash, approver_ok, next_entry, seal_checkpoint, checkpoint_due, after_append, append_entry,
  seal, check_row, check_rows, verify_chain,
}

module _ {Approval Hash Raw : Type 0} (env : Outside Approval Hash Raw) where
  abbrev rows_from : Walked Hash → List Raw → Broken ⊎ Walked Hash
  rows_from v rows = check_rows env v rows

  abbrev row_from : Walked Hash → Raw → Broken ⊎ Walked Hash
  row_from v row = check_row env v row

  abbrev seal_in : Ledger Hash Raw → World → SealRequest Approval → Ledger Hash Raw × SealReply
  seal_in l w req = seal env l w req

  -- A walk over the rows finds the chain whole, and ends where the ledger stands.
  pub record Verifies (l : Ledger Hash Raw) : Type 0 where
    pub walked : Walked Hash
    pub whole : rows_from start l.entries ≡ inr walked
    pub counted : walked.position ≡ l.last_seq
    pub headed : walked.head ≡ l.last_hash
    pub grown : walked.tree ≡ l.tree
    pub approved : walked.approvals_invalid ≡ 0
    pub holds : Holds env.interior env.empty_root l.tree (map env.leaf_hash l.entries)

  one_more :
      (v v' : Walked Hash) (rows : List Raw) (row : Raw)
      → rows_from v rows ≡ inr v'
      → rows_from v (rows ++ row ∷ []) ≡ row_from v' row
  unfolding check_rows
  one_more v v' [] row h =
      let same : v' ≡ v = ground (arith, h) in
      elim (Sum-cases (row_from v row)) [
        | inl (b, e) ↦ rw (same, check_rows, e) refl
        | inr (w, e) ↦ rw (same, check_rows, e) refl
      ]
  one_more v v' (r ∷ rows) row h = elim (Sum-cases (row_from v r)) [
    | inl (b, e) ↦
        let no : ◌≡◌ {A = Broken ⊎ Walked Hash} (inl b) (inr v') = rw (check_rows, e) at h in
        absurd (ground (arith, no))
    | inr (v'', e) ↦ rw (check_rows, e) (one_more v'' v' rows row (rw (check_rows, e) at h))
  ]

  -- The row of an entry that continues the chain, with an approval that verifies.
  accepts :
      (v : Walked Hash) (e : Entry Approval) (tree' : CompactTree Hash)
      → env.unmarshal (env.marshal e) ≡ some e
      → e.seq ≡ v.position + 1
      → e.prev ≡ v.head
      → append_leaf env.interior env.empty_root v.tree (env.leaf_hash (env.marshal e)) ≡ some tree'
      → approver_ok env e.approver e.node e.session ≡ true
      → (v' : Walked Hash) × (row_from v (env.marshal e) ≡ inr v')
        × (v'.position ≡ v.position + 1)
        × (v'.head ≡ entry_hash env e)
        × (v'.tree ≡ tree')
        × (v'.approvals_invalid ≡ v.approvals_invalid)
  unfolding check_row
  accepts v e tree' read next linked grown signed =
      let numbered : nat_beq e.seq (v.position + 1) ≡ true = ground (arith, next) in
      let chained : (e.prev == v.head) ≡ true = rw linked (beq_refl v.head) in
      let v' : Walked Hash = record {
        position = v.position + 1;
        head = entry_hash env e;
        tree = tree';
        approvals = v.approvals + approvals_in e.approver;
        approvals_invalid =
            v.approvals_invalid + (if approver_ok env e.approver e.node e.session then 0 else 1);
      } in
      (
        v',
        rw (check_row, read, numbered, chained, grown) refl,
        refl,
        refl,
        refl,
        rw signed (omega arith),
      )

  -- The ledger after a checkpoint, or without one, has the same chain.
  after_append-Verifies :
      (l : Ledger Hash Raw) (w : World) (receipt : String)
      → Verifies l
      → let (l', reply) = after_append env l w receipt in
        Verifies l'
        × (l'.last_hash ≡ l.last_hash)
        × (l'.last_seq ≡ l.last_seq)
        × ((reply ≡ sealed receipt) ⊎ (reply ≡ unchecked receipt))
  unfolding after_append seal_checkpoint
  after_append-Verifies l w receipt v = elim (Bool-cases (checkpoint_due env l w)) [
    | inl due ↦ elim (Bool-cases w.checkpoint_stored) [
      | inl ok ↦
          rw (due, ok)
            (
              record {
                walked = v.walked;
                whole = v.whole;
                counted = v.counted;
                headed = v.headed;
                grown = v.grown;
                approved = v.approved;
                holds = v.holds;
              },
              refl,
              refl,
              inl refl,
            )
      | inr bad ↦ rw (due, bad) (v, refl, refl, inr refl)
    ]
    | inr early ↦ rw early (v, refl, refl, inl refl)
  ]

  append_entry-Verifies :
      (l : Ledger Hash Raw) (w : World) (e : Entry Approval)
      → Verifies l
      → env.unmarshal (env.marshal e) ≡ some e
      → e.seq ≡ l.last_seq + 1
      → e.prev ≡ l.last_hash
      → approver_ok env e.approver e.node e.session ≡ true
      → let (l', reply) = append_entry env l w e in
        let receipt = entry_hash env e in
        Verifies l'
        × (((reply ≡ unsealed not_stored) × (l' ≡ l))
            ⊎ (((reply ≡ sealed receipt) ⊎ (reply ≡ unchecked receipt))
                × (l'.last_hash ≡ receipt)
                × (l'.last_seq ≡ l.last_seq + 1)))
  unfolding append_entry
  append_entry-Verifies l w e v read next linked signed = elim (Bool-cases w.entry_stored) [
    | inr bad ↦ rw bad (v, inl (refl, refl))
    | inl ok ↦
        let (tree', grew, holds') =
          append_leaf-Holds env.interior env.empty_root l.tree (map env.leaf_hash l.entries)
            (env.leaf_hash (env.marshal e)) v.holds in
        let (v', row, pos, head, tree, bad) =
          accepts v.walked e tree' read (next ∙ ap (λ (n : ℕ). n + 1) (sym v.counted))
            (linked ∙ sym v.headed) (rw v.grown grew) signed in
        let l1 : Ledger Hash Raw = record l {
          last_seq = e.seq;
          last_hash = entry_hash env e;
          tree = tree';
          entries = l.entries ++ env.marshal e ∷ [];
          since_checkpoint = l.since_checkpoint + 1;
        } in
        let v1 : Verifies l1 = record {
          walked = v';
          whole = one_more start v.walked l.entries (env.marshal e) v.whole ∙ row;
          counted = pos ∙ ap (λ (n : ℕ). n + 1) v.counted ∙ sym next;
          headed = head;
          grown = tree;
          approved = bad ∙ v.approved;
          holds = rw map_snoc holds';
        } in
        let (kept, same_head, same_seq, said) = after_append-Verifies l1 w (entry_hash env e) v1 in
        rw (ok, append_entry, grew) (kept, inr (said, same_head, same_seq ∙ next))
  ]

  -- A ledger without entries is verifiable.
  pub empty-Verifies :
      (l : Ledger Hash Raw)
      → l.entries ≡ []
      → l.last_seq ≡ 0
      → l.last_hash ≡ ""
      → l.tree ≡ new_tree
      → Verifies l
  unfolding check_rows
  empty-Verifies l none_yet seq hash tree = record {
    walked = start;
    whole = rw none_yet refl;
    counted = sym seq;
    headed = sym hash;
    grown = sym tree;
    approved = refl;
    holds = rw (tree, none_yet) (record { levels = top refl; counted = refl });
  }

  -- Where the JSON of an entry reads back as the entry, seal keeps a ledger that verifies
  -- verifiable, whatever is asked and whichever writes fail: either the request is refused with an
  -- error and the ledger is unchanged, or the reply carries the hash of the new last entry and the
  -- number is one higher.
  pub seal-Verifies :
      (l : Ledger Hash Raw) (w : World) (req : SealRequest Approval)
      → ((e : Entry Approval) → env.unmarshal (env.marshal e) ≡ some e)
      → Verifies l
      → let (l', reply) = seal_in l w req in
        Verifies l'
        × (((err : SealError) × (reply ≡ unsealed err) × (l' ≡ l))
            ⊎ (((reply ≡ sealed l'.last_hash) ⊎ (reply ≡ unchecked l'.last_hash))
                × (l'.last_seq ≡ l.last_seq + 1)))
  unfolding seal next_entry
  seal-Verifies l w req read v = elim (Option-cases (validate_vocabulary req)) [
    | inr (err, bad) ↦ rw (seal, bad) (v, inl (err, refl, refl))
    | inl fine ↦ elim (Bool-cases (approver_ok env req.approver l.node_id req.session)) [
      | inr unsigned ↦ rw (seal, fine, unsigned) (v, inl (approval_unverifiable, refl, refl))
      | inl signed ↦
          let (v', said) =
            append_entry-Verifies l w (next_entry env l req w.now) v (read _) refl refl signed in
          rw (seal, fine, signed)
            (
              v',
              elim said [
                | inl (what, same) ↦ inl (not_stored, what, same)
                | inr (told, head, number) ↦ inr (rw head told, number)
              ],
            )
    ]
  ]

  -- The ledger after a sequence of requests, each with what the outside answers during it.
  unfoldable pub seal_all : Ledger Hash Raw → List (World × SealRequest Approval) → Ledger Hash Raw
  seal_all l [] = l
  seal_all l ((w, req) ∷ calls) = seal_all (seal_in l w req).0 calls

  seal_all-Verifies :
      (l : Ledger Hash Raw) (calls : List (World × SealRequest Approval))
      → ((e : Entry Approval) → env.unmarshal (env.marshal e) ≡ some e)
      → Verifies l
      → Verifies (seal_all l calls)
  unfolding seal_all
  seal_all-Verifies l [] read v = v
  seal_all-Verifies l ((w, req) ∷ calls) read v =
      seal_all-Verifies (seal_in l w req).0 calls read (seal-Verifies l w req read v).0

  -- Where the JSON of an entry reads back as the entry: whatever sequence of requests a ledger that
  -- verifies is asked to seal, and whichever writes fail, the walk of verify_chain over its rows
  -- finds the chain whole with no invalid approval, ends at the ledger's last hash and number, and
  -- the head of its compact tree is the Merkle root of all its rows.
  pub sealed_history :
      (l : Ledger Hash Raw) (calls : List (World × SealRequest Approval))
      → ((e : Entry Approval) → env.unmarshal (env.marshal e) ≡ some e)
      → Verifies l
      → let after = seal_all l calls in
        (v : Walked Hash) × (verify_chain env after.entries ≡ inr v)
        × (v.approvals_invalid ≡ 0)
        × (v.head ≡ after.last_hash)
        × (v.position ≡ after.last_seq)
        × (tree_root env.interior env.empty_root after.tree
            ≡ merkle_root env.interior env.empty_root (map env.leaf_hash after.entries))
  unfolding verify_chain
  sealed_history l calls read v =
      let v' = seal_all-Verifies l calls read v in
      (
        v'.walked,
        v'.whole,
        v'.approved,
        v'.headed,
        v'.counted,
        tree_root-Holds env.interior env.empty_root (seal_all l calls).tree _ v'.holds,
      )
