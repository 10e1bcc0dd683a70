-- ===== src/Ledger/Records.antt =====
-- What a sealed effect is and what the ledger keeps of it: the records of kernel/internal/ledger/ledger.go,
-- the checks of a request, and the outcomes of its calls and of verify.go.
use deepaxiom_aura.Base.{
  nat_beq, false, ℕ, ◌*◌, String, Bool, not, ◌||◌, Option, none, some, List, [], ◌∷◌, ◌++◌, ◌==◌,
  string_eq, if◌then◌else◌, contains,
}
use deepaxiom_aura.Ledger.Merkle.{CompactTree, new_tree}

abbrev pub checkpoint_every_n : ℕ
checkpoint_every_n = 100

-- 60 seconds, in nanoseconds
abbrev pub checkpoint_every_t : ℕ
checkpoint_every_t = 60 * 1000000000

abbrev pub policy_decisions : List String
policy_decisions = "allow" ∷ "gate" ∷ "deny" ∷ []

abbrev pub effect_outcomes : List String
effect_outcomes = "delivered" ∷ "denied" ∷ []

pub record Compensation : Type 0 where
  pub capability : String
  pub port : String
  pub schema : String

-- What a caller asks to have sealed.
pub record SealRequest (Approval : Type 0) : Type 0 where
  pub session : String
  pub envelope : String
  pub cause : String
  pub actor : String
  pub capability : String
  pub decision : String
  pub outcome : String
  pub policy : String
  pub payload : String
  pub compensation : Option Compensation
  pub waived : Bool
  pub compensates : String
  pub inference : List String
  pub approver : Option Approval

pub record Entry (Approval : Type 0) : Type 0 where
  pub seq : ℕ
  pub prev : String
  pub ts : ℕ
  pub node : String
  pub session : String
  pub envelope : String
  pub cause : String
  pub actor : String
  pub capability : String
  pub decision : String
  pub outcome : String
  pub policy : String
  pub waived : Bool
  pub payload_sha256 : String
  pub compensation : Option Compensation
  pub compensates : String
  pub inference : List String
  pub approver : Option Approval

pub record CheckpointRow : Type 0 where
  pub seq : ℕ
  pub head_hash : String
  pub pubkey : String
  pub signature : String
  pub ts : ℕ
  pub merkle_root : String

-- The text that a checkpoint's signature covers: its two formats, as constructors.
pub data CheckpointPayload : Type 0 where
  payload_v1 : ℕ → String → CheckpointPayload
  payload_v2 : ℕ → String → String → CheckpointPayload

unfoldable pub checkpoint_payload : ℕ → String → String → CheckpointPayload
checkpoint_payload seq head_hash merkle_root =
    if merkle_root == "" then payload_v1 seq head_hash else payload_v2 seq head_hash merkle_root

-- The ledger and the rows of its store.
pub record Ledger (Hash Raw : Type 0) : Type 0 where
  pub node_id : String
  pub pubkey : String
  pub last_seq : ℕ
  pub last_hash : String
  pub since_checkpoint : ℕ
  pub last_checkpoint_at : ℕ
  pub tree : CompactTree Hash
  pub entries : List Raw
  pub checkpoints : List CheckpointRow

pub data SealError : Type 0 where
  capability_missing : SealError
  actor_missing : SealError
  policy_missing : SealError
  decision_unknown : SealError
  outcome_unknown : SealError
  approval_unverifiable : SealError
  not_stored : SealError

-- `unsealed` is an error without a receipt, `unchecked` the error that still carries one. `broken_tree` is the
-- panic of the compact tree.
pub data SealReply : Type 0 where
  sealed : String → SealReply
  unchecked : String → SealReply
  unsealed : SealError → SealReply
  broken_tree : SealReply

-- `Checkpoint`: the first two are its errors.
pub data CheckpointReply : Type 0 where
  nothing_sealed : CheckpointReply
  not_saved : CheckpointReply
  checkpointed : CheckpointReply

-- A checkpoint that covers this number.
unfoldable pub has_checkpoint : List CheckpointRow → ℕ → Bool
has_checkpoint [] seq = false
has_checkpoint (c ∷ rows) seq = nat_beq c.seq seq || has_checkpoint rows seq

-- What the outside answers during a call: the clock, and whether the two writes succeed.
pub record World : Type 0 where
  pub now : ℕ
  pub entry_stored : Bool
  pub checkpoint_stored : Bool

-- What the ledger calls and does not define: SHA-256 of a payload and of a row, the JSON of an entry
-- both ways, `sort.Strings`, the check of an approval's signature, the node's signature of a
-- checkpoint, the text of a tree head, the hash of a leaf, and the tree's own two hashes.
pub record Outside (Approval Hash Raw : Type 0) : Type 0 where
  pub payload_hex : String → String
  pub sha256_hex : Raw → String
  pub marshal : Entry Approval → Raw
  pub unmarshal : Raw → Option (Entry Approval)
  pub sort : List String → List String
  pub approval_ok : Approval → String → String → Bool
  pub sign : CheckpointPayload → String
  pub root_text : Hash → String
  pub leaf_hash : Raw → Hash
  pub interior : Hash → Hash → Hash
  pub empty_root : Hash

-- Where `Verify` finds the chain broken; `tree_failed` is the panic of the compact tree.
pub data Broken : Type 0 where
  not_json : ℕ → Broken
  wrong_seq : ℕ → Broken
  wrong_prev : ℕ → Broken
  tree_failed : Broken

pub record Walked (Hash : Type 0) : Type 0 where
  pub position : ℕ
  pub head : String
  pub tree : CompactTree Hash
  pub approvals : ℕ
  pub approvals_invalid : ℕ

abbrev pub start : {Hash : Type 0} → Walked Hash
start = record { position = 0; head = ""; tree = new_tree; approvals = 0; approvals_invalid = 0 }

abbrev pub approvals_in : {A : Type 0} → Option A → ℕ
approvals_in none = 0
approvals_in (some a) = 1

unfoldable pub validate_vocabulary : {Approval : Type 0} → SealRequest Approval → Option SealError
validate_vocabulary req =
    if req.capability == ""
    then some capability_missing
    else if req.actor == ""
    then some actor_missing
    else if req.policy == ""
    then some policy_missing
    else if not (contains policy_decisions req.decision)
    then some decision_unknown
    else if not (contains effect_outcomes req.outcome)
    then some outcome_unknown
    else none

-- The loop of `normalizeInference`: `seen` holds what `out` holds.
unfoldable pub distinct_named : List String → List String → List String
distinct_named [] out = out
distinct_named (h ∷ hs) out =
    distinct_named hs (if (h == "") || contains out h then out else out ++ h ∷ [])

unfoldable pub normalize_inference : (List String → List String) → List String → List String
normalize_inference sort hashes = sort (distinct_named hashes [])
