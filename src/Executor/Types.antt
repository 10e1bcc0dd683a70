-- ===== src/Executor/Types.antt =====
-- What an edge delivers to: `dest` of kernel/internal/executor/session.go, and of the registry's
-- live skill and its manifest the fields that the executor reads.
use deepaxiom_aura.Base.{String, Bool, Option, ◌≢◌, refl, str_eq, str_ne}
use deepaxiom_aura.Base.Int.{ℤ}

abbrev pub client_ref : String
client_ref = "client"

abbrev pub gate_human_approval : String
gate_human_approval = "human-approval"

abbrev pub gate_none : String
gate_none = "none"

abbrev pub type_motor : String
type_motor = "motor"

pub record Compensates : Type 0 where
  pub port : String
  pub schema : String

pub record Live : Type 0 where
  pub manifest_id : String
  pub manifest_version : String
  pub manifest_type : String
  pub capability : String
  pub compensates : Option Compensates

-- `skill` is `none` for the client.
pub record Dest : Type 0 where
  pub ref : String
  pub port : String
  pub gate : String
  pub skill : Option Live
  pub waived : Bool
  pub schema : String
  pub qos : String
  pub speculative : Bool
  pub deadline_ms : ℤ
  pub priority : ℤ
  pub from : String

-- The gates are three different words.
pub gates_differ : (gate_none ≢ gate_human_approval) × (gate_human_approval ≢ "") × (gate_none ≢ "")
unfolding str_eq
gates_differ = (str_ne _ _ refl, str_ne _ _ refl, str_ne _ _ refl)
