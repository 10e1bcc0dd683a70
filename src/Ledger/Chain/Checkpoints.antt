-- ===== src/Ledger/Chain/Checkpoints.antt =====
-- Committing the head of the ledger: `Checkpoint` of ledger.go.
use deepaxiom_aura.Base.{
  ◌/◌, ◌≡◌, refl, sym, subst, true, false, List, [], ◌∷◌, ◌++◌, nat_beq, arith, Bool-cases, inl,
  inr,
}
use deepaxiom_aura.Ledger.Records.{
  checkpoint_payload, Outside, Ledger, World, CheckpointRow, checkpointed, has_checkpoint,
}
use deepaxiom_aura.Ledger.Merkle.{tree_root}
use deepaxiom_aura.Ledger.Chain.{seal_checkpoint, checkpoint}

has_checkpoint-append :
    (rows : List CheckpointRow) (row : CheckpointRow)
    → has_checkpoint (rows ++ row ∷ []) row.seq ≡ true
unfolding has_checkpoint
has_checkpoint-append [] row = ground arith
has_checkpoint-append (c ∷ rows) row = ground (arith, has_checkpoint-append rows row)

module _ {Approval Hash Raw : Type 0} (env : Outside Approval Hash Raw) where
  covered_again :
      (l : Ledger Hash Raw) (w : World)
      → nat_beq l.last_seq 0 ≡ false
      → has_checkpoint l.checkpoints l.last_seq ≡ true
      → checkpoint env l true w ≡ (l, checkpointed)
  unfolding checkpoint
  covered_again l w some_sealed there = rw (some_sealed, there) refl

  abbrev Covered : Ledger Hash Raw → World → Ledger Hash Raw → Type 0
  Covered l w' x =
      (has_checkpoint x.checkpoints x.last_seq ≡ true)
      × (x.entries ≡ l.entries)
      × (checkpoint env x true w' ≡ (x, checkpointed))

  -- Where the store gives its checkpoints and a checkpoint succeeds, the head of the ledger is
  -- covered by one, no entry has changed, and a second checkpoint at the same head succeeds and
  -- changes nothing.
  pub checkpoint_again :
      (l l' : Ledger Hash Raw) (w w' : World)
      → checkpoint env l true w ≡ (l', checkpointed)
      → (has_checkpoint l'.checkpoints l'.last_seq ≡ true)
        × (l'.entries ≡ l.entries)
        × (checkpoint env l' true w' ≡ (l', checkpointed))
  unfolding checkpoint seal_checkpoint
  checkpoint_again l l' w w' done = elim (Bool-cases (nat_beq l.last_seq 0)) [
    | inl bare ↦ absurd (ground (arith, done, bare))
    | inr some_sealed ↦ elim (Bool-cases (has_checkpoint l.checkpoints l.last_seq)) [
      | inl there ↦
          let same : l' ≡ l = ground (arith, done, some_sealed, there) in
          subst (Covered l w') (sym same) (there, refl, covered_again l w' some_sealed there)
      | inr missing ↦ elim (Bool-cases w.checkpoint_stored) [
        | inr bad ↦ absurd (ground (arith, done, some_sealed, missing, bad))
        | inl ok ↦
            let root = env.root_text (tree_root env.interior env.empty_root l.tree) in
            let row : CheckpointRow = record {
              seq = l.last_seq;
              head_hash = l.last_hash;
              pubkey = l.pubkey;
              signature = env.sign (checkpoint_payload l.last_seq l.last_hash root);
              ts = w.now / 1000000;
              merkle_root = root;
            } in
            let l1 : Ledger Hash Raw = record l {
              checkpoints = l.checkpoints ++ row ∷ [];
              since_checkpoint = 0;
              last_checkpoint_at = w.now;
            } in
            let same : l' ≡ l1 = ground (arith, done, some_sealed, missing, ok) in
            let there = has_checkpoint-append l.checkpoints row in
            subst (Covered l w') (sym same) (there, refl, covered_again l1 w' some_sealed there)
      ]
    ]
  ]
