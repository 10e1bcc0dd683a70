-- ===== src/Ledger/Verify.antt =====
-- `Verify` and its report (kernel/internal/ledger/verify.go), with `verifyWitnesses` of witness.go beside
-- it. The store is what its four reads give; where the chain is broken the report keeps the place, and
-- not the words. The fingerprint of the key, a label, is left out.
mod Observations
pub mod Verdict
pub mod Sound
mod Tests
use deepaxiom_aura.Base.{
  ℕ, ◌+◌, String, Bool, true, false, not, ◌&&◌, ◌||◌, Option, none, some, ◌⊎◌, inl, inr, List, [],
  ◌∷◌, ◌==◌, string_eq, nat_eq, if◌then◌else◌, nat_beq, length, contains, map, Dict, lookup, insert,
}
use deepaxiom_aura.Signing.{Crypto, signed_as, verify}
use deepaxiom_aura.Ledger.Merkle.{tree_root}
use deepaxiom_aura.Ledger.Records.{
  CheckpointPayload, checkpoint_payload, Entry, CheckpointRow, Outside, Broken, Walked, start,
}
use deepaxiom_aura.Ledger.Chain.{check_row}
use deepaxiom_aura.Ledger.Succession.{
  SuccessionRow, SuccessionPayload, KeySegment, KeyTimeline, TimelineError, key_at,
  build_key_timeline,
}

pub record WitnessRow : Type 0 where
  pub seq : ℕ
  pub witness_key : String
  pub merkle_root : String
  pub signature : String
  pub witness_url : String
  pub ts : ℕ

-- The texts that keys sign here: of a checkpoint, of a handover, and of a witness for a node, a number
-- and a head.
pub data Statement : Type 0 where
  of_checkpoint : CheckpointPayload → Statement
  of_succession : SuccessionPayload → Statement
  of_witness : String → ℕ → String → Statement

-- What the store's reads give; `none` is an error.
pub record Stored (Raw : Type 0) : Type 0 where
  pub entries : Option (List Raw)
  pub checkpoints : Option (List CheckpointRow)
  pub successions : Option (List SuccessionRow)
  pub witnesses : Option (List WitnessRow)

pub record Report : Type 0 where
  pub total_entries : ℕ
  pub chain_intact : Bool
  pub broken : Option Broken
  pub checkpoints : ℕ
  pub checkpoints_valid : ℕ
  pub key_available : Bool
  pub merkle_root : String
  pub merkle_checkpoints : ℕ
  pub merkle_mismatches : ℕ
  pub witnesses : ℕ
  pub witnesses_valid : ℕ
  pub approvals : ℕ
  pub approvals_invalid : ℕ
  pub key_timeline : List KeySegment
  pub key_rotations : ℕ
  pub succession_failure : Option TimelineError

abbrev pub no_failure : Option TimelineError → Bool
no_failure none = true
no_failure (some _) = false

unfoldable pub sound : Report → Bool
sound r =
    r.chain_intact
    && nat_beq r.merkle_mismatches 0
    && no_failure r.succession_failure
    && (not r.key_available || nat_beq r.checkpoints_valid r.checkpoints)
    && nat_beq r.witnesses_valid r.witnesses
    && nat_beq r.approvals_invalid 0

-- `Verify` fails, with or without a part of the report, or gives it.
pub data VerifyReply : Type 0 where
  unread_entries : VerifyReply
  unread_checkpoints : Report → VerifyReply
  unread_successions : Report → VerifyReply
  reported : Report → VerifyReply

-- What the walk over the rows gathers: `byHash` and `rootAt`.
pub record Observed (Approval Hash : Type 0) : Type 0 where
  pub walked : Walked Hash
  pub by_hash : Dict String (Entry Approval)
  pub root_at : Dict ℕ Hash

-- The counts of the pass over the checkpoints.
pub record Counts : Type 0 where
  pub valid : ℕ
  pub with_root : ℕ
  pub mismatches : ℕ

module _ {Approval Hash Raw : Type 0} (env : Outside Approval Hash Raw) where
  unfoldable pub note_row :
      List ℕ → Observed Approval Hash → Walked Hash → Entry Approval → Observed Approval Hash
  note_row wanted o v e = record {
    walked = v;
    by_hash = insert v.head e o.by_hash;
    root_at =
        if contains wanted e.seq
        then insert e.seq (tree_root env.interior env.empty_root v.tree) o.root_at
        else o.root_at;
  }

  -- One round of the loop: what `check_row` finds, and the two maps.
  unfoldable pub observe : List ℕ → Observed Approval Hash → Raw → Broken ⊎ Observed Approval Hash
  observe wanted o raw = elim (check_row env o.walked raw) [
    | inl broken ↦ inl broken
    | inr v ↦ elim (env.unmarshal raw) [
      | none ↦ inr (record o { walked = v })
      | some e ↦ inr (note_row wanted o v e)
    ]
  ]

  -- The loop, up to the first row that breaks the chain.
  unfoldable pub observe_all :
      List ℕ → Observed Approval Hash → List Raw → Observed Approval Hash × Option Broken
  observe_all wanted o [] = (o, none)
  observe_all wanted o (raw ∷ rows) = elim (observe wanted o raw) [
    | inl broken ↦ (o, some broken)
    | inr o' ↦ observe_all wanted o' rows
  ]

  unfoldable pub root_agrees : Dict ℕ Hash → ℕ → String → Bool
  root_agrees root_at seq root = elim (lookup seq root_at) [
    | none ↦ false
    | some got ↦ env.root_text got == root
  ]

module _ {Approval Hash Raw : Type 0} (env : Outside Approval Hash Raw)
    (crypto : Crypto Statement) where
  -- A checkpoint that stands at an entry of the chain, and that the key of its time signed.
  unfoldable pub checkpoint_valid : KeyTimeline → Observed Approval Hash → CheckpointRow → Bool
  checkpoint_valid timeline o cp = elim (lookup cp.head_hash o.by_hash) [
    | none ↦ false
    | some entry ↦
        if not (nat_beq entry.seq cp.seq)
        then false
        else elim (verify (signed_as of_checkpoint crypto) (key_at timeline cp.seq) cp.signature
            (checkpoint_payload cp.seq cp.head_hash cp.merkle_root)) [
              | none ↦ true
              | some _ ↦ false
            ]
  ]

  unfoldable pub check_checkpoint :
      KeyTimeline → Observed Approval Hash → Counts → CheckpointRow → Counts
  check_checkpoint timeline o n cp =
      if not (checkpoint_valid timeline o cp)
      then n
      else if cp.merkle_root == ""
      then record n { valid = n.valid + 1 }
      else record {
        valid = n.valid + 1;
        with_root = n.with_root + 1;
        mismatches =
            if root_agrees env o.root_at cp.seq cp.merkle_root
            then n.mismatches
            else n.mismatches + 1;
      }

  unfoldable pub check_checkpoints :
      KeyTimeline → Observed Approval Hash → Counts → List CheckpointRow → Counts
  check_checkpoints timeline o n [] = n
  check_checkpoints timeline o n (cp ∷ cps) =
      check_checkpoints timeline o (check_checkpoint timeline o n cp) cps

  -- `witnessedNodeID`; an error of the read is a store without entries.
  unfoldable pub witnessed_node_id : List Raw → String
  witnessed_node_id [] = ""
  witnessed_node_id (raw ∷ rows) = elim (env.unmarshal raw) [ none ↦ "" | some e ↦ e.node ]

  unfoldable pub witness_valid : Dict ℕ Hash → String → WitnessRow → Bool
  witness_valid root_at node_id row =
      if not (root_agrees env root_at row.seq row.merkle_root)
      then false
      else if node_id == ""
      then false
      else elim (verify (signed_as (λ (s : Statement). s) crypto) row.witness_key row.signature
          (of_witness node_id row.seq row.merkle_root)) [ none ↦ true | some _ ↦ false ]

  unfoldable pub count_witnesses : Dict ℕ Hash → String → List WitnessRow → ℕ
  count_witnesses root_at node_id [] = 0
  count_witnesses root_at node_id (row ∷ rows) =
      (if witness_valid root_at node_id row then 1 else 0) + count_witnesses root_at node_id rows

  unfoldable pub verify_witnesses :
      Option (List WitnessRow) → List Raw → List CheckpointRow → Dict ℕ Hash → ℕ × ℕ
  verify_witnesses none rows checkpoints root_at = (0, 0)
  verify_witnesses (some witnesses) rows checkpoints root_at =
      let node_id = if nat_beq (length checkpoints) 0 then "" else witnessed_node_id rows in
      (length witnesses, count_witnesses root_at node_id witnesses)

  abbrev pub root_string : Walked Hash → String
  root_string v = env.root_text (tree_root env.interior env.empty_root v.tree)

  -- The report before the walk, with the rows and the checkpoints that were read.
  abbrev pub blank : ℕ → ℕ → String → Report
  blank entries checkpoints pubkey = record {
    total_entries = entries;
    chain_intact = true;
    broken = none;
    checkpoints = checkpoints;
    checkpoints_valid = 0;
    key_available = not (pubkey == "");
    merkle_root = "";
    merkle_checkpoints = 0;
    merkle_mismatches = 0;
    witnesses = 0;
    witnesses_valid = 0;
    approvals = 0;
    approvals_invalid = 0;
    key_timeline = [];
    key_rotations = 0;
    succession_failure = none;
  }

  abbrev pub with_approvals : Report → Walked Hash → Report
  with_approvals r v = record r { approvals = v.approvals; approvals_invalid = v.approvals_invalid }

  -- The two passes that need a key, once the timeline is built.
  unfoldable pub with_signatures :
      Report
      → KeyTimeline
      → Observed Approval Hash
      → List Raw
      → List CheckpointRow
      → Option (List WitnessRow)
      → Report
  with_signatures r timeline o rows checkpoints witness_rows =
      let n =
        check_checkpoints timeline o (record { valid = 0; with_root = 0; mismatches = 0 })
          checkpoints in
      let (total, valid) = verify_witnesses witness_rows rows checkpoints o.root_at in
      record r {
        key_timeline = timeline.segments;
        key_rotations = timeline.rotations;
        checkpoints_valid = n.valid;
        merkle_checkpoints = n.with_root;
        merkle_mismatches = n.mismatches;
        witnesses = total;
        witnesses_valid = valid;
      }

  -- What follows a walk that found the chain whole.
  unfoldable pub verify_signatures :
      Stored Raw
      → Report
      → Observed Approval Hash
      → List Raw
      → List CheckpointRow
      → String
      → VerifyReply
  verify_signatures st r o rows checkpoints pubkey =
      if not r.key_available then reported r else elim st.successions [
        | none ↦ unread_successions r
        | some successions ↦
            elim (build_key_timeline (signed_as of_succession crypto) successions pubkey) [
              | inl err ↦ reported (record r { succession_failure = some err })
              | inr timeline ↦ reported (with_signatures r timeline o rows checkpoints st.witnesses)
            ]
      ]

  unfoldable pub verify_rows : Stored Raw → List Raw → List CheckpointRow → String → VerifyReply
  verify_rows st rows checkpoints pubkey =
      let empty : Observed Approval Hash = record { walked = start; by_hash = []; root_at = [] } in
      let (o, broken) =
        observe_all env (map (λ (cp : CheckpointRow). cp.seq) checkpoints) empty rows in
      let r = with_approvals (blank (length rows) (length checkpoints) pubkey) o.walked in
      elim broken [
        | some place ↦ reported (record r { chain_intact = false; broken = some place })
        | none ↦
            verify_signatures st (record r { merkle_root = root_string o.walked }) o rows
              checkpoints pubkey
      ]

  unfoldable pub verify_ledger : Stored Raw → String → VerifyReply
  verify_ledger st pubkey = elim st.entries [
    | none ↦ unread_entries
    | some rows ↦ elim st.checkpoints [
      | none ↦ unread_checkpoints (blank (length rows) 0 pubkey)
      | some checkpoints ↦ verify_rows st rows checkpoints pubkey
    ]
  ]
