-- ===== src/Broker/Tests.antt =====
-- Concrete runs of the broker: two sealed effects, and one secret.
use deepaxiom_aura.Base.{
  ℕ, ◌+◌, ◌≤◌, ◌<◌, ◌≡◌, refl, inr, max, String, false, Option, none, some, List, [], ◌∷◌, ◌==◌,
  string_eq, nat_eq, if◌then◌else◌, arith, length, str_eq, lookup, insert, contains,
}
use deepaxiom_aura.Broker.{
  Outside, max_uses, Entry, Grant, open_broker, Request, granted, redemptions, redeem, check_entry,
  decrypt, decrypt_all, release, entry_of, spend, resolve, resolve_all,
}
use deepaxiom_aura.Broker.Receipts.{Buys, resolve_authorized, grants_on, grants_bounded}

abbrev paid : Entry
paid = record {
  seq = 7;
  ts = 1000;
  capability = "motor.pay";
  outcome = "delivered";
  waived = false;
}

abbrev rows : String → Option String
rows receipt = if receipt == "sha256:7" then some "row 7" else none

abbrev read_row : String → Option Entry
read_row raw = if raw == "row 7" then some paid else none

abbrev secrets : String → Option String
secrets name = if name == "stripe" then some "cipher" else none

abbrev bytes : String → Option (List ℕ)
bytes text = some (1 ∷ 2 ∷ 3 ∷ [])

abbrev unbox : List ℕ → List ℕ → String → Option String
unbox nonce body name = if length body == 2 then some "sk_live" else none

abbrev shop : Outside
shop = record {
  ledger_entry_by_hash = rows;
  unmarshal = read_row;
  secret_row = secrets;
  decode = bytes;
  nonce_size = 1;
  open_box = unbox;
}

abbrev ask : Request
ask = record {
  receipt = "sha256:7";
  capability = "motor.pay";
  names = "stripe" ∷ [];
  now = 2000000000;
}

abbrev bought : Grant
bought = record { values = ("stripe", "sk_live") ∷ []; capability = "motor.pay"; seq = 7 }

sold : (resolve shop open_broker ask).1 ≡ granted bought
unfolding resolve entry_of spend check_entry redemptions redeem release decrypt_all decrypt lookup
    insert str_eq
sold = refl

resolve_authorized_example :
    (e : Entry) × (entry_of shop ask.receipt ≡ inr e)
    × Buys e ask
    × (redemptions open_broker ask.receipt < max_uses)
    × (bought.capability ≡ e.capability)
    × (bought.seq ≡ e.seq)
    × (lookup "stripe" bought.values
        ≡ (if contains ask.names "stripe" then decrypt shop "stripe" else none))
resolve_authorized_example = resolve_authorized shop open_broker ask bought "stripe" sold

abbrev greedy : List Request
greedy = ask ∷ ask ∷ ask ∷ ask ∷ []

grants_bounded_example :
    grants_on shop "sha256:7" greedy (resolve_all shop open_broker greedy).1
      + redemptions open_broker "sha256:7"
    ≤ max max_uses (redemptions open_broker "sha256:7")
grants_bounded_example = grants_bounded shop open_broker greedy "sha256:7" (omega arith)
