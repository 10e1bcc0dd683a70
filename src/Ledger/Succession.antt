-- ===== src/Ledger/Succession.antt =====
-- How a node's signing key is replaced (kernel/internal/ledger/succession.go): the handovers, the walk
-- back from the one key that is trusted, and which key was in force at a number.
mod Index
mod Order
pub mod Custody
pub mod Tenure
pub mod History
mod Tests
use deepaxiom_aura.Base.{
  ℕ, zero, suc, ◌+◌, ◌-◌, String, Bool, true, false, not, Option, none, some, ◌⊎◌, inl, inr, List,
  [], ◌∷◌, ◌++◌, ◌==◌, string_eq, if◌then◌else◌, leb, nat_beq, length, contains, Dict, lookup,
  insert, pow2,
}
use deepaxiom_aura.Signing.{Crypto, SignError, verify}

-- A row of the table of handovers (`SuccessionRow` of kernel/internal/store/store.go).
pub record SuccessionRow : Type 0 where
  pub seq : ℕ
  pub from_pubkey : String
  pub from_sig : String
  pub to_pubkey : String
  pub to_sig : String
  pub reason : String
  pub ts : ℕ

-- The text that both signatures of a handover cover, its four values as fields.
pub record SuccessionPayload : Type 0 where
  pub seq : ℕ
  pub from_pubkey : String
  pub to_pubkey : String
  pub ts : ℕ

pub record KeySegment : Type 0 where
  pub up_to : ℕ
  pub pubkey : String

pub record KeyTimeline : Type 0 where
  pub segments : List KeySegment
  pub rotations : ℕ

-- The largest uint64.
abbrev pub max_seq : ℕ
max_seq = 18446744073709551615

pub data SuccessionError : Type 0 where
  handed_to_itself : ℕ → SuccessionError
  not_by_outgoing : ℕ → SignError → SuccessionError
  not_by_incoming : ℕ → SignError → SuccessionError

pub data TimelineError : Type 0 where
  no_anchor : TimelineError
  custody_forks : String → ℕ → ℕ → TimelineError
  unverified : SuccessionError → TimelineError
  cycle_at : String → TimelineError
  unreachable : ℕ → TimelineError
  out_of_order : ℕ → ℕ → TimelineError

-- The state of the walk back: `reversed` holds the segment that was appended last first, `seen` the keys.
pub record WalkBack : Type 0 where
  pub reversed : List KeySegment
  pub seen : List String
  pub current : String
  pub used : ℕ

-- The key of the first segment that reaches a number; the last key where none does.
unfoldable pub key_in : List KeySegment → ℕ → String
key_in [] seq = ""
key_in (seg ∷ []) seq = seg.pubkey
key_in (seg ∷ next ∷ segs) seq =
    let later = key_in (next ∷ segs) seq in if leb seq seg.up_to then seg.pubkey else later

unfoldable pub key_at : KeyTimeline → ℕ → String
key_at t seq = key_in t.segments seq

unfoldable pub last_up_to : List KeySegment → Option ℕ
last_up_to [] = none
last_up_to (seg ∷ []) = some seg.up_to
last_up_to (seg ∷ next ∷ segs) = last_up_to (next ∷ segs)

-- The flip to ascending order: `segs` are still to be appended.
unfoldable pub ascend : List KeySegment → List KeySegment → TimelineError ⊎ List KeySegment
ascend segments [] = inr segments
ascend segments (seg ∷ segs) = elim (last_up_to segments) [
  | none ↦ ascend (segments ++ seg ∷ []) segs
  | some prev ↦
      let rest = ascend (segments ++ seg ∷ []) segs in
      if leb seg.up_to prev then inl (out_of_order seg.up_to prev) else rest
]

-- The loop that fills `byTo`.
unfoldable pub index_by_to :
    Dict String SuccessionRow → List SuccessionRow → TimelineError ⊎ Dict String SuccessionRow
index_by_to by_to [] = inr by_to
index_by_to by_to (rec ∷ recs) = elim (lookup rec.to_pubkey by_to) [
  | some prev ↦ inl (custody_forks rec.to_pubkey prev.seq rec.seq)
  | none ↦ index_by_to (insert rec.to_pubkey rec by_to) recs
]

abbrev pub payload_of : SuccessionRow → SuccessionPayload
payload_of rec = record {
  seq = rec.seq;
  from_pubkey = rec.from_pubkey;
  to_pubkey = rec.to_pubkey;
  ts = rec.ts;
}

abbrev pub start_at : String → WalkBack
start_at trusted = record {
  reversed = record { up_to = max_seq; pubkey = trusted } ∷ [];
  seen = trusted ∷ [];
  current = trusted;
  used = 0;
}

abbrev pub step_back : WalkBack → SuccessionRow → WalkBack
step_back w rec = record {
  reversed = record { up_to = rec.seq; pubkey = rec.from_pubkey } ∷ w.reversed;
  seen = rec.from_pubkey ∷ w.seen;
  current = rec.from_pubkey;
  used = w.used + 1;
}

-- The two last parts of `BuildKeyTimeline`: every row was used, and the segments ascend.
unfoldable pub finish_timeline : ℕ → WalkBack → TimelineError ⊎ KeyTimeline
finish_timeline total w =
    if not (nat_beq w.used total)
    then inl (unreachable (total - w.used))
    else elim (ascend [] w.reversed) [
      | inl err ↦ inl err
      | inr segments ↦ inr (record { segments = segments; rotations = length segments - 1 })
    ]

module _ (crypto : Crypto SuccessionPayload) where
  unfoldable pub verify_succession : SuccessionRow → Option SuccessionError
  verify_succession rec =
      if rec.from_pubkey == rec.to_pubkey
      then some (handed_to_itself rec.seq)
      else elim (verify crypto rec.from_pubkey rec.from_sig (payload_of rec)) [
        | some err ↦ some (not_by_outgoing rec.seq err)
        | none ↦ elim (verify crypto rec.to_pubkey rec.to_sig (payload_of rec)) [
          | some err ↦ some (not_by_incoming rec.seq err)
          | none ↦ none
        ]
      ]

  -- The loop of the walk: `rounds` is how often its condition still holds.
  unfoldable pub walk_back : Dict String SuccessionRow → ℕ → WalkBack → TimelineError ⊎ WalkBack
  walk_back by_to zero w = inr w
  walk_back by_to (suc rounds) w = elim (lookup w.current by_to) [
    | none ↦ inr w
    | some rec ↦ elim (verify_succession rec) [
      | some err ↦ inl (unverified err)
      | none ↦
          let rest = walk_back by_to rounds (step_back w rec) in
          if contains w.seen rec.from_pubkey then inl (cycle_at rec.from_pubkey) else rest
    ]
  ]

  unfoldable pub build_key_timeline : List SuccessionRow → String → TimelineError ⊎ KeyTimeline
  build_key_timeline successions trusted =
      if trusted == ""
      then inl no_anchor
      else if nat_beq (length successions) 0
      then inr
          (record { segments = record { up_to = max_seq; pubkey = trusted } ∷ []; rotations = 0 })
      else elim (index_by_to [] successions) [
        | inl err ↦ inl err
        | inr by_to ↦ elim (walk_back by_to (length successions + 1) (start_at trusted)) [
          | inl err ↦ inl err
          | inr w ↦ finish_timeline (length successions) w
        ]
      ]
