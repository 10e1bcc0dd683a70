-- ===== src/Ledger/Chain/Tests.antt =====
-- Concrete runs of the chain of sealed effects.
use deepaxiom_aura.Base.{
  ℕ, ◌+◌, ◌*◌, ◌≡◌, refl, sym, ◌∙◌, ◌⊎◌, inr, String, true, false, none, some, List, [], ◌∷◌,
  length, map, Eq, nat_eq, string_eq, str_eq, pair_eq, option_eq, list_eq, bool_eq, eq_through,
  ◌==◌, ◌+++◌,
}
use deepaxiom_aura.Ledger.Merkle.{new_tree, merkle_root, tree_root, append_leaf, carry_up}
use deepaxiom_aura.Ledger.Chain.{checkpoint, seal_checkpoint}
use deepaxiom_aura.Ledger.Chain.Checkpoints.{checkpoint_again}
use deepaxiom_aura.Ledger.Records.{
  checkpointed, has_checkpoint, SealRequest, Compensation, Entry, Ledger, SealError, sealed,
  unchecked, unsealed, World, Walked, validate_vocabulary, Outside,
}
use deepaxiom_aura.Ledger.Chain.{
  entry_hash, approver_ok, next_entry, after_append, append_entry, seal, verify_chain,
}
use deepaxiom_aura.Ledger.Chain.Seal.{
  Verifies, empty-Verifies, seal_all, seal-Verifies, sealed_history,
}
use deepaxiom_aura.Ledger.Chain.Tamper.{HashCollision, head_fixes_history}

-- A small hash for the runs.
abbrev mix : ℕ → ℕ → ℕ
mix a b = 3 * a + 5 * b + 1

-- The runs of the chain keep an entry as its own row, hash it to its number and link, and let an approval be the name
-- of the node that it is for.
abbrev Row : Type 0
Row = Entry String

abbrev digest_text : Row → String
digest_text e = e.capability +++ e.prev

abbrev plain_outside : Outside String ℕ Row
plain_outside = record {
  payload_hex = λ s. s;
  sha256_hex = digest_text;
  marshal = λ e. e;
  unmarshal = some;
  sort = λ xs. xs;
  approval_ok = λ a node session. a == node;
  sign = λ payload. "signed";
  root_text = λ h. "root";
  leaf_hash = λ r. r.seq;
  interior = mix;
  empty_root = 0;
}

abbrev fresh_ledger : Ledger ℕ Row
fresh_ledger = record {
  node_id = "node";
  pubkey = "key";
  last_seq = 0;
  last_hash = "";
  since_checkpoint = 0;
  last_checkpoint_at = 0;
  tree = new_tree;
  entries = [];
  checkpoints = [];
}

abbrev pay : SealRequest String
pay = record {
  session = "s";
  envelope = "e";
  cause = "c";
  actor = "agent";
  capability = "motor.pay";
  decision = "gate";
  outcome = "delivered";
  policy = "sha256:p";
  payload = "10";
  compensation = none;
  waived = false;
  compensates = "";
  inference = "b" ∷ "a" ∷ "b" ∷ [];
  approver = some "node";
}

abbrev forged : SealRequest String
forged = record pay { approver = some "elsewhere" }

abbrev calm : World
calm = record { now = 1000000; entry_stored = true; checkpoint_stored = true }

abbrev full_disk : World
full_disk = record { now = 61000000000; entry_stored = true; checkpoint_stored = false }

abbrev calls : List (World × SealRequest String)
calls = (calm, pay) ∷ (calm, forged) ∷ (full_disk, pay) ∷ []

fresh-Verifies : Verifies plain_outside fresh_ledger
fresh-Verifies = empty-Verifies plain_outside fresh_ledger refl refl refl refl

seal-Verifies_example :
    let (l', reply) = seal plain_outside fresh_ledger calm pay in
    Verifies plain_outside l'
    × (((err : SealError) × (reply ≡ unsealed err) × (l' ≡ fresh_ledger))
        ⊎ (((reply ≡ sealed l'.last_hash) ⊎ (reply ≡ unchecked l'.last_hash))
            × (l'.last_seq ≡ fresh_ledger.last_seq + 1)))
seal-Verifies_example = seal-Verifies plain_outside fresh_ledger calm pay (λ e. refl) fresh-Verifies

sealed_history_example :
    let after = seal_all plain_outside fresh_ledger calls in
    (v : Walked ℕ) × (verify_chain plain_outside after.entries ≡ inr v)
    × (v.approvals_invalid ≡ 0)
    × (v.head ≡ after.last_hash)
    × (v.position ≡ after.last_seq)
    × (tree_root mix 0 after.tree ≡ merkle_root mix 0 (map (λ (r : Row). r.seq) after.entries))
sealed_history_example = sealed_history plain_outside fresh_ledger calls (λ e. refl) fresh-Verifies

-- The fields of an entry, to tell entries apart.
abbrev CompensationFields : Type 0
CompensationFields = String × (String × String)

comp_eq : Eq Compensation
comp_eq =
    eq_through {B = CompensationFields} (pair_eq string_eq (pair_eq string_eq string_eq))
      (λ c. (c.capability, (c.port, c.schema)))
      (λ (c, (p, s)). record { capability = c; port = p; schema = s }) (λ c. refl)

instance row_eq : Eq Row
row_eq =
    let two : Eq (String × String) = pair_eq string_eq string_eq in
    let four : Eq ((String × String) × (String × String)) = pair_eq two two in
    eq_through
      (pair_eq (pair_eq (pair_eq nat_eq nat_eq) (pair_eq bool_eq four)) (
        pair_eq (pair_eq four four) (
          pair_eq (option_eq ⦃e = comp_eq⦄)
            (pair_eq (list_eq ⦃e = string_eq⦄) (option_eq ⦃e = string_eq⦄)))))
      (λ e. (
        ((e.seq, e.ts), (e.waived, ((e.prev, e.node), (e.session, e.envelope)))),
        (
          (
            ((e.cause, e.actor), (e.capability, e.decision)),
            ((e.outcome, e.policy), (e.payload_sha256, e.compensates)),
          ),
          (e.compensation, (e.inference, e.approver)),
        ),
      ))
      (λ (
        ((seq, ts), (waived, ((prev, node), (session, envelope)))),
        (
          (
            ((cause, actor), (capability, decision)),
            ((outcome, policy), (payload_sha256, compensates)),
          ),
          (compensation, (inference, approver)),
        ),
      ).
        record {
          seq = seq;
          prev = prev;
          ts = ts;
          node = node;
          session = session;
          envelope = envelope;
          cause = cause;
          actor = actor;
          capability = capability;
          decision = decision;
          outcome = outcome;
          policy = policy;
          waived = waived;
          payload_sha256 = payload_sha256;
          compensation = compensation;
          compensates = compensates;
          inference = inference;
          approver = approver;
        })
      (λ e. refl)

abbrev in_order : Ledger ℕ Row
in_order = seal_all plain_outside fresh_ledger ((calm, pay) ∷ [])

abbrev elsewhen : Ledger ℕ Row
elsewhen = seal_all plain_outside fresh_ledger ((calm, record pay { session = "t" }) ∷ [])

same_heads : in_order.last_hash ≡ elsewhen.last_hash
unfolding seal_all seal validate_vocabulary approver_ok append_entry after_append entry_hash
    next_entry append_leaf carry_up str_eq
same_heads = refl

same_lengths : length in_order.entries ≡ length elsewhen.entries
unfolding seal_all seal validate_vocabulary approver_ok append_entry after_append entry_hash
    next_entry append_leaf carry_up str_eq
same_lengths = refl

in_order-Verifies : Verifies plain_outside in_order
unfolding seal_all
in_order-Verifies = (seal-Verifies plain_outside fresh_ledger calm pay (λ e. refl) fresh-Verifies).0

elsewhen-Verifies : Verifies plain_outside elsewhen
unfolding seal_all
elsewhen-Verifies =
    (seal-Verifies plain_outside fresh_ledger calm (record pay { session = "t" }) (λ e. refl)
      fresh-Verifies).0

head_fixes_history_example :
    (map some in_order.entries ≡ map some elsewhen.entries) ⊎ HashCollision digest_text
unfolding verify_chain
head_fixes_history_example =
    head_fixes_history plain_outside in_order.entries elsewhen.entries in_order-Verifies.walked
      elsewhen-Verifies.walked (λ e. refl) in_order-Verifies.whole elsewhen-Verifies.whole
      same_lengths (in_order-Verifies.headed ∙ same_heads ∙ sym elsewhen-Verifies.headed)

abbrev calm_later : World
calm_later = record calm { now = 5000000 }

abbrev committed : Ledger ℕ Row
committed = (checkpoint plain_outside in_order true calm).0

commits : checkpoint plain_outside in_order true calm ≡ (committed, checkpointed)
unfolding checkpoint seal_checkpoint has_checkpoint seal_all seal validate_vocabulary approver_ok
    append_entry after_append entry_hash next_entry append_leaf carry_up tree_root str_eq
commits = refl

checkpoint_again_example :
    (has_checkpoint committed.checkpoints committed.last_seq ≡ true)
    × (committed.entries ≡ in_order.entries)
    × (checkpoint plain_outside committed true calm_later ≡ (committed, checkpointed))
checkpoint_again_example = checkpoint_again plain_outside in_order committed calm calm_later commits
