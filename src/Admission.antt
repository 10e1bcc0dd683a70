-- ===== src/Admission.antt =====
-- The memory budget of a node (kernel/internal/gateway/admission.go). The declared text is parsed by a
-- regular expression and floating point: what that gives, an int64 of bytes, is an argument, `none` its error.
pub mod Account
mod Tests
use deepaxiom_aura.Base.{
  String, Bool, true, false, ◌&&◌, Option, none, some, List, [], ◌∷◌, string_eq, if◌then◌else◌, ltb,
  Dict, lookup, insert, erase,
}
use deepaxiom_aura.Base.Int.{ℤ, pos, ltb_ℤ, add64, sub64}

pub record Admission : Type 0 where
  pub budget : ℤ
  pub used : ℤ
  pub per_conn : Dict String ℤ

abbrev pub new_admission : ℤ → Admission
new_admission budget = record { budget = budget; used = pos 0; per_conn = [] }

pub data AdmissionError : Type 0 where
  bad_memory : AdmissionError
  over_budget : AdmissionError

-- The reservation of a connection, or why there is none.
unfoldable pub admit : Admission → String → Option ℤ → Admission × Option AdmissionError
admit a conn declared = elim declared [
  | none ↦ (a, some bad_memory)
  | some need ↦
      if ltb_ℤ (pos 0) a.budget && ltb_ℤ a.budget (add64 a.used need)
      then (a, some over_budget)
      else (record a { used = add64 a.used need; per_conn = insert conn need a.per_conn }, none)
]

-- a.perConn[connID], 0 for a key that is missing
abbrev pub or_zero : Option ℤ → ℤ
or_zero none = pos 0
or_zero (some n) = n

unfoldable pub free : Admission → String → Admission
free a conn = record a {
  used = sub64 a.used (or_zero (lookup conn a.per_conn));
  per_conn = erase conn a.per_conn;
}
