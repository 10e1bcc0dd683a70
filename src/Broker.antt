-- ===== src/Broker.antt =====
-- The credential broker (kernel/internal/broker/broker.go): a secret is released against the receipt
-- of a sealed effect. The store, base64, the AEAD box and the ledger entry's JSON are parameters;
-- times are nanoseconds since the epoch, as is an entry's stamp in milliseconds times a million.
pub mod Receipts
mod Tests
use deepaxiom_aura.Base.{
  ℕ, ◌+◌, ◌*◌, String, Bool, true, false, not, ◌&&◌, ◌||◌, Option, none, some, ◌⊎◌, inl, inr, List,
  [], ◌∷◌, ◌==◌, string_eq, if◌then◌else◌, ltb, leb, length, take, drop, Dict, lookup, insert,
  str_eq,
}

-- 90 seconds
abbrev pub receipt_ttl : ℕ
receipt_ttl = 90 * 1000000000

abbrev pub max_uses : ℕ
max_uses = 3

abbrev pub sweep_above : ℕ
sweep_above = 4096

abbrev pub outcome_delivered : String
outcome_delivered = "delivered"

-- Of ledger.Entry the fields that the broker reads.
pub record Entry : Type 0 where
  pub seq : ℕ
  pub ts : ℕ
  pub capability : String
  pub outcome : String
  pub waived : Bool

pub record Grant : Type 0 where
  pub values : Dict String String
  pub capability : String
  pub seq : ℕ

pub data BrokerError : Type 0 where
  no_receipt : BrokerError
  no_names : BrokerError
  unknown_receipt : BrokerError
  unreadable_entry : BrokerError
  not_delivered : BrokerError
  waived_effect : BrokerError
  other_capability : BrokerError
  too_old : BrokerError
  spent : BrokerError
  secret_unavailable : String → BrokerError

pub data Reply : Type 0 where
  granted : Grant → Reply
  refused : BrokerError → Reply

-- `used`: the redemptions of each receipt so far.
pub record Broker : Type 0 where
  pub used : Dict String ℕ

abbrev pub open_broker : Broker
open_broker = record { used = [] }

pub record Request : Type 0 where
  pub receipt : String
  pub capability : String
  pub names : List String
  pub now : ℕ

-- b.used[receipt], 0 for a key that is missing
unfoldable pub redemptions : Broker → String → ℕ
redemptions b receipt = elim (lookup receipt b.used) [ none ↦ 0 | some n ↦ n ]

unfoldable pub sweep : Broker → Broker
sweep b = record b { used = [] }

unfoldable pub redeem : Broker → String → Broker
redeem b receipt =
    let counted : Broker = record b { used = insert receipt (redemptions b receipt + 1) b.used } in
    if ltb sweep_above (length counted.used) then sweep counted else counted

-- The checks of the entry that the receipt names, in the code's order.
unfoldable pub check_entry : Entry → String → ℕ → Option BrokerError
check_entry e capability now =
    if not (e.outcome == outcome_delivered)
    then some not_delivered
    else if e.waived
    then some waived_effect
    else if not (capability == "") && not (e.capability == capability)
    then some other_capability
    else if ltb (e.ts * 1000000 + receipt_ttl) now
    then some too_old
    else none

-- What the broker calls: the store's rows of entries and of secrets, the JSON of an entry, base64, and the
-- AEAD box under the node's key. `none` is an error or a row that is not there.
pub record Outside : Type 0 where
  pub ledger_entry_by_hash : String → Option String
  pub unmarshal : String → Option Entry
  pub secret_row : String → Option String
  pub decode : String → Option (List ℕ)
  pub nonce_size : ℕ
  pub open_box : List ℕ → List ℕ → String → Option String

module _ (env : Outside) where
  unfoldable pub decrypt : String → Option String
  decrypt name = elim (env.secret_row name) [
    | none ↦ none
    | some ct ↦ elim (env.decode ct) [
      | none ↦ none
      | some raw ↦
          if ltb (length raw) env.nonce_size
          then none
          else env.open_box (take env.nonce_size raw) (drop env.nonce_size raw) name
    ]
  ]

  -- The values of the names in turn, or the first name that has none.
  unfoldable pub decrypt_all : List String → Dict String String → String ⊎ Dict String String
  decrypt_all [] values = inr values
  decrypt_all (name ∷ names) values = elim (decrypt name) [
    | none ↦ inl name
    | some v ↦ decrypt_all names (insert name v values)
  ]

  -- The end of `Resolve`, the redemption being counted.
  unfoldable pub release : Entry → List String → Reply
  release e names = elim (decrypt_all names []) [
    | inl name ↦ refused (secret_unavailable name)
    | inr values ↦ granted (record { values = values; capability = e.capability; seq = e.seq })
  ]

  -- The entry that a receipt names; an empty row is none.
  unfoldable pub entry_of : String → BrokerError ⊎ Entry
  entry_of receipt = elim (env.ledger_entry_by_hash receipt) [
    | none ↦ inl unknown_receipt
    | some raw ↦
        if raw == ""
        then inl unknown_receipt
        else elim (env.unmarshal raw) [ none ↦ inl unreadable_entry | some e ↦ inr e ]
  ]

  unfoldable pub spend : Broker → Request → Entry → Broker × Reply
  spend b q e = elim (check_entry e q.capability q.now) [
    | some err ↦ (b, refused err)
    | none ↦
        if leb max_uses (redemptions b q.receipt)
        then (b, refused spent)
        else (redeem b q.receipt, release e q.names)
  ]

  unfoldable pub resolve : Broker → Request → Broker × Reply
  resolve b q =
      if q.receipt == ""
      then (b, refused no_receipt)
      else if leb (length q.names) 0
      then (b, refused no_names)
      else elim (entry_of q.receipt) [ inl err ↦ (b, refused err) | inr e ↦ spend b q e ]

  -- The replies to a sequence of requests, in their order.
  unfoldable pub resolve_all : Broker → List Request → Broker × List Reply
  resolve_all b [] = (b, [])
  resolve_all b (q ∷ qs) =
      let (b', reply) = resolve b q in
      let (b'', replies) = resolve_all b' qs in (b'', reply ∷ replies)
