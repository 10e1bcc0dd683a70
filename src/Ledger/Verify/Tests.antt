-- ===== src/Ledger/Verify/Tests.antt =====
-- A concrete run of `Verify` over two rows and a checkpoint.
use deepaxiom_aura.Base.{
  ℕ, ◌+◌, ◌*◌, ◌≡◌, refl, String, true, false, some, none, [], ◌∷◌, ◌==◌, string_eq, str_eq, lookup,
  insert,
}
use deepaxiom_aura.Signing.{Crypto, verify}
use deepaxiom_aura.Ledger.Merkle.{append_leaf, carry_up, tree_root}
use deepaxiom_aura.Ledger.Records.{Entry, Outside, checkpoint_payload}
use deepaxiom_aura.Ledger.Chain.{entry_hash, check_row, approver_ok}
use deepaxiom_aura.Ledger.Succession.{key_at, key_in, build_key_timeline}
use deepaxiom_aura.Ledger.Verify.{
  Stored, Report, Statement, reported, sound, observe, observe_all, note_row, checkpoint_valid,
  root_agrees, check_checkpoint, check_checkpoints, witnessed_node_id, count_witnesses,
  verify_witnesses, with_signatures, verify_signatures, verify_rows, verify_ledger,
}
use deepaxiom_aura.Ledger.Verify.Sound.{IsBackedBy, sound_verdict}

abbrev Row : Type 0
Row = Entry String

abbrev simple_outside : Outside String ℕ Row
simple_outside = record {
  payload_hex = λ s. s;
  sha256_hex = λ e. e.capability;
  marshal = λ e. e;
  unmarshal = some;
  sort = λ xs. xs;
  approval_ok = λ a node session. a == node;
  sign = λ payload. "key";
  root_text = λ h. "root";
  leaf_hash = λ r. r.seq;
  interior = λ a b. 3 * a + 5 * b + 1;
  empty_root = 0;
}

abbrev simple_crypto : Crypto Statement
simple_crypto = record { decode = some; bytes = λ key. 32; ed25519_ok = λ key text sig. key == sig }

abbrev row : ℕ → String → String → Row
row seq prev capability = record {
  seq = seq;
  prev = prev;
  ts = 0;
  node = "node";
  session = "s";
  envelope = "e";
  cause = "c";
  actor = "agent";
  capability = capability;
  decision = "allow";
  outcome = "delivered";
  policy = "p";
  waived = false;
  payload_sha256 = "10";
  compensation = none;
  compensates = "";
  inference = [];
  approver = some "node";
}

abbrev kept : Stored Row
kept = record {
  entries = some (row 1 "" "motor.pay" ∷ row 2 "sha256:motor.pay" "motor.tell" ∷ []);
  checkpoints = some (
      record {
        seq = 1;
        head_hash = "sha256:motor.pay";
        pubkey = "key";
        signature = "key";
        ts = 0;
        merkle_root = "root";
      }
      ∷ []);
  successions = some [];
  witnesses = some [];
}

abbrev findings : Report
findings = record {
  total_entries = 2;
  chain_intact = true;
  broken = none;
  checkpoints = 1;
  checkpoints_valid = 1;
  key_available = true;
  merkle_root = "root";
  merkle_checkpoints = 1;
  merkle_mismatches = 0;
  witnesses = 0;
  witnesses_valid = 0;
  approvals = 2;
  approvals_invalid = 0;
  key_timeline = record { up_to = 18446744073709551615; pubkey = "key" } ∷ [];
  key_rotations = 0;
  succession_failure = none;
}

verified : verify_ledger simple_outside simple_crypto kept "key" ≡ reported findings
unfolding str_eq lookup insert verify append_leaf carry_up tree_root checkpoint_payload entry_hash
    check_row approver_ok key_at key_in build_key_timeline observe observe_all note_row
    checkpoint_valid root_agrees check_checkpoint check_checkpoints count_witnesses verify_witnesses
    with_signatures verify_signatures verify_rows verify_ledger witnessed_node_id
verified = refl

verdict : sound findings ≡ true
unfolding sound
verdict = refl

sound_verdict_example : IsBackedBy simple_outside simple_crypto kept "key" findings
sound_verdict_example =
    sound_verdict simple_outside simple_crypto kept "key" findings verified verdict refl
