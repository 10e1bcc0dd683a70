-- ===== src/Ledger/Chain.antt =====
-- The hash chain of sealed effects: `Seal` and its checkpoints (kernel/internal/ledger/ledger.go), and
-- the walk of `Verify` over the stored rows (kernel/internal/ledger/verify.go). Of the store, the rows
-- are kept in their order, and an argument says whether a write succeeds. SHA-256 of a payload and of a row,
-- the JSON of an entry (a `Raw`), the sort of strings, the key pair's signature and the check of an approval are parameters.
pub mod Attested
pub mod Seal
pub mod Tamper
pub mod Checkpoints
mod Tests
use deepaxiom_aura.Base.{
  ℕ, zero, suc, ◌+◌, ◌-◌, ◌*◌, ◌/◌, String, Bool, true, false, not, ◌&&◌, ◌||◌, Option, none, some,
  ◌⊎◌, inl, inr, List, [], ◌∷◌, ◌++◌, ◌==◌, string_eq, str_eq, ◌+++◌, if◌then◌else◌, ltb, leb,
  nat_beq, contains,
}
use deepaxiom_aura.Ledger.Merkle.{CompactTree, new_tree, append_leaf, tree_root}
use deepaxiom_aura.Ledger.Records.{
  checkpoint_payload, CheckpointReply, nothing_sealed, not_saved, checkpointed, has_checkpoint,
  checkpoint_every_n, checkpoint_every_t, policy_decisions, effect_outcomes, Compensation,
  SealRequest, Entry, CheckpointRow, Ledger, SealError, SealReply, World, Outside, Broken, Walked,
  start, approvals_in, validate_vocabulary, distinct_named, normalize_inference, capability_missing,
  actor_missing, policy_missing, decision_unknown, outcome_unknown, approval_unverifiable,
  not_stored, sealed, unchecked, unsealed, broken_tree, not_json, wrong_seq, wrong_prev,
  tree_failed,
}

module _ {Approval Hash Raw : Type 0} (env : Outside Approval Hash Raw) where
  unfoldable pub entry_hash : Entry Approval → String
  entry_hash e = "sha256:" +++ env.sha256_hex (env.marshal e)

  -- An approval that is there must verify.
  unfoldable pub approver_ok : Option Approval → String → String → Bool
  approver_ok none node session = true
  approver_ok (some a) node session = env.approval_ok a node session

  unfoldable pub next_entry : Ledger Hash Raw → SealRequest Approval → ℕ → Entry Approval
  next_entry l req now = record {
    seq = l.last_seq + 1;
    prev = l.last_hash;
    ts = now / 1000000;
    node = l.node_id;
    session = req.session;
    envelope = req.envelope;
    cause = req.cause;
    actor = req.actor;
    capability = req.capability;
    decision = req.decision;
    outcome = req.outcome;
    policy = req.policy;
    waived = req.waived;
    payload_sha256 = env.payload_hex req.payload;
    compensation = req.compensation;
    compensates = req.compensates;
    inference = normalize_inference env.sort req.inference;
    approver = req.approver;
  }

  unfoldable pub seal_checkpoint : Ledger Hash Raw → World → Option (Ledger Hash Raw)
  seal_checkpoint l w =
      let root = env.root_text (tree_root env.interior env.empty_root l.tree) in
      if w.checkpoint_stored
      then some (record l {
        checkpoints =
            l.checkpoints
            ++ record {
              seq = l.last_seq;
              head_hash = l.last_hash;
              pubkey = l.pubkey;
              signature = env.sign (checkpoint_payload l.last_seq l.last_hash root);
              ts = w.now / 1000000;
              merkle_root = root;
            }
              ∷ [];
        since_checkpoint = 0;
        last_checkpoint_at = w.now;
      })
      else none

  -- `Checkpoint`; `rows_read` says whether the store gives its checkpoints.
  unfoldable pub checkpoint : Ledger Hash Raw → Bool → World → Ledger Hash Raw × CheckpointReply
  checkpoint l rows_read w =
      if nat_beq l.last_seq 0
      then (l, nothing_sealed)
      else if rows_read && has_checkpoint l.checkpoints l.last_seq
      then (l, checkpointed)
      else elim (seal_checkpoint l w) [ none ↦ (l, not_saved) | some l' ↦ (l', checkpointed) ]

  abbrev pub checkpoint_due : Ledger Hash Raw → World → Bool
  checkpoint_due l w =
      leb checkpoint_every_n l.since_checkpoint
      || leb (l.last_checkpoint_at + checkpoint_every_t) w.now

  -- The entry is durable, whether or not the checkpoint is.
  unfoldable pub after_append : Ledger Hash Raw → World → String → Ledger Hash Raw × SealReply
  after_append l w receipt =
      if checkpoint_due l w
      then elim (seal_checkpoint l w) [
        | none ↦ (l, unchecked receipt)
        | some l' ↦ (l', sealed receipt)
      ]
      else (l, sealed receipt)

  unfoldable pub append_entry :
      Ledger Hash Raw → World → Entry Approval → Ledger Hash Raw × SealReply
  append_entry l w entry =
      let receipt = entry_hash entry in
      let raw = env.marshal entry in
      if w.entry_stored
      then elim (append_leaf env.interior env.empty_root l.tree (env.leaf_hash raw)) [
        | none ↦ (l, broken_tree)
        | some tree' ↦
            after_append
              (record l {
                last_seq = entry.seq;
                last_hash = receipt;
                tree = tree';
                entries = l.entries ++ raw ∷ [];
                since_checkpoint = l.since_checkpoint + 1;
              })
              w receipt
      ]
      else (l, unsealed not_stored)

  unfoldable pub seal : Ledger Hash Raw → World → SealRequest Approval → Ledger Hash Raw × SealReply
  seal l w req = elim (validate_vocabulary req) [
    | some err ↦ (l, unsealed err)
    | none ↦
        if approver_ok req.approver l.node_id req.session
        then append_entry l w (next_entry l req w.now)
        else (l, unsealed approval_unverifiable)
  ]

  -- One round of `Verify`'s loop; `position` is i, `head` is prevHash.
  unfoldable pub check_row : Walked Hash → Raw → Broken ⊎ Walked Hash
  check_row v raw = elim (env.unmarshal raw) [
    | none ↦ inl (not_json (v.position + 1))
    | some e ↦
        if not (nat_beq e.seq (v.position + 1))
        then inl (wrong_seq (v.position + 1))
        else if not (e.prev == v.head)
        then inl (wrong_prev e.seq)
        else elim (append_leaf env.interior env.empty_root v.tree (env.leaf_hash raw)) [
          | none ↦ inl tree_failed
          | some tree' ↦ inr (record {
            position = v.position + 1;
            head = entry_hash e;
            tree = tree';
            approvals = v.approvals + approvals_in e.approver;
            approvals_invalid =
                v.approvals_invalid + (if approver_ok e.approver e.node e.session then 0 else 1);
          })
        ]
  ]

  unfoldable pub check_rows : Walked Hash → List Raw → Broken ⊎ Walked Hash
  check_rows v [] = inr v
  check_rows v (raw ∷ rows) = elim (check_row v raw) [
    | inl broken ↦ inl broken
    | inr v' ↦ check_rows v' rows
  ]

  unfoldable pub verify_chain : List Raw → Broken ⊎ Walked Hash
  verify_chain rows = check_rows start rows
