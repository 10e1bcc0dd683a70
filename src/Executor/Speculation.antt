-- ===== src/Executor/Speculation.antt =====
-- Speculative deliveries (kernel/internal/executor/speculation.go): what is folded and guessed per
-- stream, when a guess stands, and what is to cancel when it does not. encoding/json is a parameter.
pub mod Laws
use deepaxiom_aura.Base.{
  ℕ, ◌+◌, String, Bool, true, false, ◌&&◌, Option, none, some, List, [], ◌∷◌, ◌++◌, Eq, ◌↔◌, ◌==◌,
  ◌≡◌, refl, arith, string_eq, str_eq, str_eq_iff, if◌then◌else◌, remove_first, Dict, lookup,
  insert, erase, ◌+++◌,
}
use deepaxiom_aura.Fifo.{push, drop_oldest, adjust}

abbrev pub max_spec_roots : ℕ
max_spec_roots = 1024

-- json.RawMessage, `none` where it is nil.
abbrev pub RawMessage : Type 0
RawMessage = Option String

abbrev pub string : RawMessage → String
string none = ""
string (some s) = s

pub record SpecKey : Type 0 where
  pub root : String
  pub from : String

abbrev pub beq_spec_key : SpecKey → SpecKey → Bool
beq_spec_key a b = (a.root == b.root) && (a.from == b.from)

pub beq_spec_key_iff : (a b : SpecKey) → (beq_spec_key a b ≡ true) ↔ (a ≡ b)
beq_spec_key_iff a b = ground (arith, str_eq_iff a.root b.root, str_eq_iff a.from b.from)

instance abbrev pub spec_key_eq : Eq SpecKey
spec_key_eq = record { agrees = beq_spec_key; agrees_iff = beq_spec_key_iff }

pub record SpecState : Type 0 where
  pub accumulated : RawMessage
  pub speculated_on : RawMessage
  pub deliveries : List String

abbrev pub empty_state : SpecState
empty_state = record { accumulated = none; speculated_on = none; deliveries = [] }

pub record SpeculationStats : Type 0 where
  pub attempts : ℕ
  pub hits : ℕ
  pub misses : ℕ
  pub refused : ℕ

pub record SpecIndex : Type 0 where
  pub state : Dict SpecKey SpecState
  pub order : List SpecKey
  pub max : ℕ
  pub stats : SpeculationStats

abbrev pub new_spec_index : ℕ → SpecIndex
new_spec_index max = record {
  state = [];
  order = [];
  max = max;
  stats = record { attempts = 0; hits = 0; misses = 0; refused = 0 };
}

-- `get`: the index after it has the stream, and the state that its pointer reads.
unfoldable pub get_state : SpecIndex → SpecKey → SpecIndex × SpecState
get_state x k = elim (lookup k x.state) [
  | some st ↦ (x, st)
  | none ↦
      let (order', oldest) = push x.max x.order k in
      (
        record x { state = drop_oldest oldest (insert k empty_state x.state); order = order' },
        empty_state,
      )
]

-- What the callers write through that pointer.
unfoldable pub write_state : SpecIndex → SpecKey → (SpecState → SpecState) → SpecIndex
write_state x k f = record x { state = adjust k f x.state }

abbrev pub speculate_on : String → SpecState → SpecState
speculate_on envelope_id st = record st {
  speculated_on = st.accumulated;
  deliveries = st.deliveries ++ envelope_id ∷ [];
}

unfoldable pub speculate : SpecIndex → SpecKey → String → SpecIndex
speculate x k envelope_id =
    let (held, st) = get_state x k in
    let written = write_state held k (speculate_on envelope_id) in
    record written { stats = record written.stats { attempts = written.stats.attempts + 1 } }

unfoldable pub forget : SpecIndex → SpecKey → SpecIndex
forget x k = record x { state = erase k x.state; order = remove_first x.order k }

pub record TextPayload : Type 0 where
  pub text : String
  pub final : Bool

-- A decoded value: an object, or anything else.
pub data Json (Other : Type 0) : Type 0 where
  object : Dict String Other → Json Other
  other : Other → Json Other

abbrev pub schema_text : String
schema_text = "std/text@1"

-- encoding/json: what Unmarshal leaves in a text payload and whether it succeeds, Marshal of one, what it
-- reads for `probe.Final`, both directions for an untyped value, and the value `true`.
pub record Encoding (Other : Type 0) : Type 0 where
  pub unmarshal_text : String → TextPayload × Bool
  pub marshal_text : TextPayload → Option String
  pub unmarshal_final : String → Option (Option Bool)
  pub unmarshal : String → Option (Json Other)
  pub marshal : Json Other → Option String
  pub json_true : Other

module _ {Other : Type 0} (json : Encoding Other) where
  -- The running value, zero before anything ran.
  abbrev pub running_text : RawMessage → TextPayload
  running_text running =
      if string running == ""
      then record { text = ""; final = false }
      else (json.unmarshal_text (string running)).0

  unfoldable pub accumulate : String → RawMessage → RawMessage → RawMessage
  accumulate schema running next =
      if schema == schema_text
      then (let (incoming, ok) = json.unmarshal_text (string next) in
          let acc : TextPayload = record {
            text = (running_text running).text +++ incoming.text;
            final = incoming.final;
          } in
          if ok then elim (json.marshal_text acc) [ none ↦ next | some out ↦ some out ] else next)
      else next

  unfoldable pub fold : SpecIndex → SpecKey → String → RawMessage → SpecIndex × RawMessage
  fold x k schema payload =
      let (held, st) = get_state x k in
      let folded = accumulate schema st.accumulated payload in
      (write_state held k (λ s. record s { accumulated = folded }), folded)

  unfoldable pub is_final : RawMessage → Bool
  is_final payload =
      if string payload == "" then false else elim (json.unmarshal_final (string payload)) [
        | none ↦ false
        | some none ↦ false
        | some (some f) ↦ f
      ]

  unfoldable pub mark_final : RawMessage → RawMessage
  mark_final raw = elim (json.unmarshal (string raw)) [
    | none ↦ raw
    | some (other v) ↦ raw
    | some (object m) ↦ elim (json.marshal (object (insert "final" json.json_true m))) [
      | none ↦ raw
      | some out ↦ some out
    ]
  ]

  abbrev pub without_final : Json Other → Json Other
  without_final (object m) = object (erase "final" m)
  without_final (other v) = other v

  unfoldable pub canonical_content : RawMessage → String
  canonical_content raw = elim (json.unmarshal (string raw)) [
    | none ↦ string raw
    | some v ↦ elim (json.marshal (without_final v)) [ none ↦ string raw | some out ↦ out ]
  ]

  unfoldable pub content_equal : RawMessage → RawMessage → Bool
  content_equal a b = canonical_content a == canonical_content b

  abbrev pub count : Bool → SpeculationStats → SpeculationStats
  count true s = record s { hits = s.hits + 1 }
  count false s = record s { misses = s.misses + 1 }

  unfoldable pub resolve : SpecIndex → SpecKey → RawMessage → SpecIndex × Bool × List String
  resolve x k final = elim (lookup k x.state) [
    | none ↦ (x, false, [])
    | some st ↦ elim st.speculated_on [
      | none ↦ (x, false, [])
      | some guess ↦
          let hit = content_equal (some guess) final in
          (
            forget (record x { stats = count hit x.stats }) k,
            hit,
            if hit then [] else st.deliveries,
          )
    ]
  ]
