-- ===== src/Channel.antt =====
-- The unit of everything that flows through the kernel (kernel/internal/channel/envelope.go) and
-- the rules of its validation. JSON values are the bytes that encode them.
pub mod Dedup
mod Tests
use deepaxiom_aura.Base.{
  ℕ, String, Bool, true, false, ◌||◌, Option, none, some, List, ◌≡◌, ◌≢◌, arith, ◌==◌, string_eq,
  if◌then◌else◌, str_eq_iff, ◌↔◌, inl, inr, ◌⊎◌,
}
use deepaxiom_aura.Base.Int.{ℤ}

abbrev pub Bytes : Type 0
Bytes = List ℕ

abbrev pub protocol_major : String
protocol_major = "1"

abbrev pub kind_data : String
kind_data = "data"

abbrev pub kind_cancel : String
kind_cancel = "cancel"

abbrev pub qos_reliable : String
qos_reliable = "reliable"

pub record Envelope : Type 0 where
  pub v : String
  pub id : String
  pub cause_id : String
  pub session : String
  pub node : String
  pub port : String
  pub seq : ℕ
  pub idem : String
  pub schema : String
  pub kind : String
  pub payload : Bytes
  pub receipt : String
  pub attest : Bytes
  pub deadline : ℤ
  pub priority : ℤ
  pub speculative : Bool

pub data EnvelopeError : Type 0 where
  unsupported_major missing_id missing_kind missing_session missing_address missing_idem
        missing_schema :
      EnvelopeError

-- The `switch` of `Validate`, for a data envelope.
unfoldable pub validate_data : Envelope → Option EnvelopeError
validate_data e =
    if e.session == ""
    then some missing_session
    else if (e.node == "") || (e.port == "")
    then some missing_address
    else if e.idem == ""
    then some missing_idem
    else if e.schema == ""
    then some missing_schema
    else none

-- `none` is a nil error.
unfoldable pub validate : Envelope → Option EnvelopeError
validate e =
    if e.v == protocol_major
    then (if e.id == ""
        then some missing_id
        else if e.kind == ""
        then some missing_kind
        else if e.kind == kind_data
        then validate_data e
        else none)
    else some unsupported_major

-- The normative rules of an envelope, and those of one that carries data.
pub record IsAddressed (e : Envelope) : Type 0 where
  pub session : e.session ≢ ""
  pub node : e.node ≢ ""
  pub port : e.port ≢ ""
  pub idem : e.idem ≢ ""
  pub schema : e.schema ≢ ""

pub record IsWellFormed (e : Envelope) : Type 0 where
  pub major : e.v ≡ protocol_major
  pub id : e.id ≢ ""
  pub kind : e.kind ≢ ""
  pub addressed : e.kind ≡ kind_data → IsAddressed e

validate_data_iff : (e : Envelope) → (validate_data e ≡ none) ↔ IsAddressed e
unfolding validate_data
validate_data_iff e = ground (
  arith,
  str_eq_iff e.session "",
  str_eq_iff e.node "",
  str_eq_iff e.port "",
  str_eq_iff e.idem "",
  str_eq_iff e.schema "",
)

-- validate accepts an envelope exactly when it obeys the rules: the protocol's major, an id and a
-- kind, and for data also a session, a node, a port, an idempotency key and a schema.
pub validate_iff : (e : Envelope) → (validate e ≡ none) ↔ IsWellFormed e
unfolding validate
validate_iff e = ground (
  arith,
  validate_data_iff e,
  str_eq_iff e.v protocol_major,
  str_eq_iff e.id "",
  str_eq_iff e.kind "",
  str_eq_iff e.kind kind_data,
)
