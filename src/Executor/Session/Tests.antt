-- ===== src/Executor/Session/Tests.antt =====
-- Concrete runs of a session with one edge into a motor skill.
use deepaxiom_aura.Base.{
  ℕ, ◌+◌, ◌*◌, ◌≡◌, ◌≢◌, refl, String, true, false, some, none, inr, [], ◌∷◌, ◌==◌, string_eq,
  str_eq, str_ne, lookup, arith, Option, ◌⊎◌,
}
use deepaxiom_aura.Base.Int.{pos}
use deepaxiom_aura.Fifo.{Tracks-empty}
use deepaxiom_aura.Channel.{Envelope}
use deepaxiom_aura.Channel.Dedup.{new_dedup}
use deepaxiom_aura.Ledger.Merkle.{new_tree}
use deepaxiom_aura.Ledger.Records.{Entry, Ledger, Outside}
use deepaxiom_aura.Ledger.Chain.{seal}
use deepaxiom_aura.Executor.Types.{Dest, Live}
use deepaxiom_aura.Executor.Causal.{new_causal, new_in_flight, new_cancelled, new_attest, get}
use deepaxiom_aura.Executor.Causal.Bounds.{Cancelled-Inv}
use deepaxiom_aura.Executor.Speculation.{new_spec_index}
use deepaxiom_aura.Executor.Budget.{drop_expired, deadline_expired}
use deepaxiom_aura.Executor.Policy.{Policy, seal_failure_refuses, signed_approval_required}
use deepaxiom_aura.Executor.Session.{Session, Host, Turn, PendingGate, root_of, take_approval}
use deepaxiom_aura.Executor.Session.Forward.{
  forward, seal_hop, is_effect_hop, trace_hop, seal_request,
}
use deepaxiom_aura.Executor.Session.Gate.{Verdict, unbound_labels, authorize_signed, authorize_gate}
use deepaxiom_aura.Executor.Session.Route.{cancel_root, route}
use deepaxiom_aura.Executor.Session.Emits.{Adds}
use deepaxiom_aura.Executor.Session.Gated.{IsFree, gate_never_bypassed}
use deepaxiom_aura.Executor.Session.Cancelled.{IsUnmoved, cancel_silences}
use deepaxiom_aura.Executor.Session.Sealed.{IsReceipted, unsealed_never_delivered}
use deepaxiom_aura.Executor.Session.Answers.{IsVouchedFor, authorized_by_signature}
use deepaxiom_aura.Executor.Causal.{slice_at, bool_at}
use deepaxiom_aura.Executor.Causal.Attest.{Attest-Inv}
use deepaxiom_aura.Channel.Dedup.{new-Inv}
use deepaxiom_aura.Executor.Session.Bounded.{route_all, route_all-IsBounded}
use deepaxiom_aura.Executor.Session.Bounded.OneHop.{IsBounded}
use deepaxiom_aura.Ledger.Chain.Attested.{Attests}
use deepaxiom_aura.Executor.Session.Late.{IsDropped, late_effect_sealed}

abbrev Row : Type 0
Row = Entry String

abbrev small_outside : Outside String ℕ Row
small_outside = record {
  payload_hex = λ s. s;
  sha256_hex = λ e. e.envelope;
  marshal = λ e. e;
  unmarshal = some;
  sort = λ xs. xs;
  approval_ok = λ a node session. a == node;
  sign = λ payload. "signed";
  root_text = λ h. "root";
  leaf_hash = λ r. r.seq;
  interior = λ a b. 3 * a + 5 * b + 1;
  empty_root = 0;
}

-- The host of the runs: an approval is the name of its operator, and every operator approves.
abbrev small_host : Host String String
small_host = record {
  new_id = λ n. "id";
  send_ok = λ d e. true;
  text_of = λ bytes. none;
  bytes_of = λ raw. [];
  json = record {
    unmarshal_text = λ s. (record { text = s; final = false }, true);
    marshal_text = λ p. some p.text;
    unmarshal_final = λ s. none;
    unmarshal = λ s. none;
    marshal = λ v. none;
    json_true = "true";
  };
  answer_of = λ bytes. record { approve = true; approval = none };
  roster_ok = λ a node session envelope. a == "ann";
  operator = λ a. a;
  decision = λ a. "approve";
  shows = λ a label. label == "diff";
  attestation_hash = λ bytes. none;
  attestation_stored = λ hash. true;
}

abbrev payer : Live
payer = record {
  manifest_id = "pay";
  manifest_version = "1";
  manifest_type = "motor";
  capability = "motor.pay";
  compensates = none;
}

abbrev to_payer : Dest
to_payer = record {
  ref = "pay";
  port = "in";
  gate = "human-approval";
  skill = some payer;
  waived = false;
  schema = "std/text@1";
  qos = "reliable";
  speculative = false;
  deadline_ms = pos 0;
  priority = pos 0;
  from = "client.out";
}

abbrev strict_policy : Policy
strict_policy = record {
  version = pos 1;
  default_effect = "gate";
  allow_graph_waiver = none;
  speculation = "";
  require_signed_approval = true;
  require_approval_context = "diff" ∷ [];
  on_seal_failure = "refuse";
  rules = [];
  routes = [];
  source = "";
  hash = "p";
  buckets = [];
}

abbrev empty_ledger : Ledger ℕ Row
empty_ledger = record {
  node_id = "node";
  pubkey = "key";
  last_seq = 0;
  last_hash = "";
  since_checkpoint = 0;
  last_checkpoint_at = 0;
  tree = new_tree;
  entries = [];
  checkpoints = [];
}

abbrev live_session : Session String ℕ Row
live_session = record {
  id = "s";
  node_id = "node";
  routes = ("client.out", to_payer ∷ []) ∷ [];
  seq = [];
  dedup = new_dedup 4;
  policy = strict_policy;
  ledger = some empty_ledger;
  undo_of = "";
  pending = [];
  has_roster = true;
  approved = [];
  causal = new_causal 4;
  in_flight = new_in_flight 4;
  cancelled = new_cancelled 4;
  attests = new_attest 4 4;
  spec = new_spec_index 4;
  context = none;
  minted = 0;
  events = [];
  outputs = [];
}

abbrev message : Envelope
message = record {
  v = "1";
  id = "m1";
  cause_id = "";
  session = "s";
  node = "client";
  port = "out";
  seq = 1;
  idem = "i";
  schema = "std/text@1";
  kind = "data";
  payload = 1 ∷ 2 ∷ [];
  receipt = "";
  attest = [];
  deadline = pos 0;
  priority = pos 0;
  speculative = false;
}

abbrev cancel_it : Envelope
cancel_it = record message { id = "c1"; cause_id = "m1"; kind = "cancel" }

abbrev late_message : Envelope
late_message = record message { deadline = pos 5 }

abbrev turn : Turn
turn = record {
  rate_now = 0;
  now = pos 9;
  world = record { now = 0; entry_stored = true; checkpoint_stored = true };
}

gate_never_bypassed_example :
    Adds
      (IsFree small_outside small_host live_session message)
      []
      (route small_outside small_host turn live_session message).outputs
gate_never_bypassed_example = gate_never_bypassed small_outside small_host turn live_session message

no_cancel : Cancelled-Inv (new_cancelled 4)
no_cancel = record { tracks = Tracks-empty 4; room = omega arith }

m1_named : ◌≢◌ {A = String} (cancel_root small_outside small_host live_session cancel_it) ""
unfolding get lookup str_eq
m1_named = str_ne "m1" "" refl

m1_chain :
    root_of (route small_outside small_host turn live_session cancel_it) message
    ≡ cancel_root small_outside small_host live_session cancel_it
unfolding root_of get lookup str_eq
m1_chain = refl

data_ne : (◌≢◌ {A = String} "data" "cancel") × (◌≢◌ {A = String} "data" "confirm_response")
unfolding str_eq
data_ne = (str_ne "data" "cancel" refl, str_ne "data" "confirm_response" refl)

cancel_silences_example :
    let after = route small_outside small_host turn live_session cancel_it in
    IsUnmoved small_outside small_host after
      (route small_outside small_host turn after message)
      message
cancel_silences_example =
    cancel_silences small_outside small_host turn turn live_session cancel_it message no_cancel refl
      m1_named m1_chain data_ne.0 data_ne.1

refusing : seal_failure_refuses strict_policy ≡ true
unfolding seal_failure_refuses str_eq
refusing = refl

unsealed_never_delivered_example :
    let after = forward small_outside small_host turn live_session message to_payer in
    Adds
      (IsReceipted small_outside small_host turn empty_ledger payer to_payer after)
      []
      after.outputs
unsealed_never_delivered_example =
    unsealed_never_delivered small_outside small_host turn live_session message to_payer payer
      empty_ledger refl refl refl refl refusing

abbrev held_message : PendingGate
held_message = record { env = message; to = to_payer }

abbrev ann_says : Verdict String
ann_says = record { approve = true; approval = some "ann" }

ann_heard :
    authorize_gate small_outside small_host live_session held_message true (some "ann")
    ≡ inr ann_says
unfolding authorize_gate authorize_signed unbound_labels str_eq
ann_heard = refl

authorized_by_signature_example :
    (ann_says.approve ≡ true)
    × (((a : String) × (◌≡◌ {A = Option String} (some "ann") (some a))
          × (ann_says.approval ≡ some a)
          × IsVouchedFor small_outside small_host live_session held_message true a)
        ⊎ ((◌≡◌ {A = Option String} (some "ann") none)
            × (ann_says.approval ≡ none)
            × (signed_approval_required strict_policy ≡ false)))
authorized_by_signature_example =
    authorized_by_signature small_outside small_host live_session held_message true (some "ann")
      ann_says ann_heard

late : drop_expired (pos 9) late_message ≡ true
unfolding drop_expired deadline_expired str_eq
late = refl

motor_data : is_effect_hop small_outside small_host payer late_message ≡ true
unfolding str_eq
motor_data = refl

late_effect_sealed_example :
    let root = root_of live_session message in
    let (asked, approver) =
      take_approval
        (trace_hop small_outside small_host live_session late_message root to_payer)
        late_message.cause_id in
    let req =
      seal_request small_outside small_host asked late_message to_payer payer root approver in
    let (l', reply) = seal small_outside empty_ledger turn.world req in
    IsDropped small_outside small_host live_session
      (seal_hop small_outside small_host turn live_session message late_message to_payer)
      l'
    × Attests small_outside empty_ledger l' reply "m1" payer.capability "delivered"
late_effect_sealed_example =
    late_effect_sealed small_outside small_host turn live_session message late_message to_payer
      payer empty_ledger refl refl motor_data late

no_attestation : Attest-Inv (new_attest 4 4)
unfolding slice_at bool_at lookup
no_attestation = record {
  tracks = Tracks-empty 4;
  room = omega arith;
  room_per_root = omega arith;
  few = λ r. omega arith;
  once = λ r. tt;
  marked = λ r h. absurd (ground (arith, h));
}

starts-IsBounded : IsBounded live_session
starts-IsBounded = (
  record { tracks = Tracks-empty 4; room = omega arith },
  record { tracks = Tracks-empty 4; room = omega arith },
  no_cancel,
  no_attestation,
  record { tracks = Tracks-empty ⦃e = _⦄ 4; room = omega arith },
  new-Inv 4 (omega arith),
)

route_all-IsBounded_example :
    IsBounded
      (route_all small_outside small_host live_session ((turn, message) ∷ (turn, cancel_it) ∷ []))
route_all-IsBounded_example =
    route_all-IsBounded small_outside small_host ((turn, message) ∷ (turn, cancel_it) ∷ [])
      live_session starts-IsBounded
