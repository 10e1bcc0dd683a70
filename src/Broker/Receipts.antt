-- ===== src/Broker/Receipts.antt =====
-- What a receipt buys from the broker of broker.go, and how often.
use deepaxiom_aura.Base.{
  ℕ, ◌+◌, ◌*◌, ◌<◌, ◌≤◌, ◌≡◌, max, length-insert, refl, String, false, Option, none, ◌⊎◌, inl, inr,
  List, [], ◌∷◌, ◌==◌, string_eq, contains, if◌then◌else◌, ltb, leb, length, Dict, lookup, insert,
  str_eq_iff, lookup-insert, arith, Bool-cases, Option-cases, Sum-cases,
}
use deepaxiom_aura.Broker.{
  Outside, receipt_ttl, max_uses, sweep_above, outcome_delivered, Entry, Grant, BrokerError, Reply,
  granted, refused, no_receipt, no_names, spent, Broker, Request, redemptions, redeem, check_entry,
  decrypt, decrypt_all, release, entry_of, spend, resolve, resolve_all,
}

-- What the entry of a receipt must be for a request to be granted.
pub record Buys (e : Entry) (q : Request) : Type 0 where
  pub delivered : e.outcome ≡ outcome_delivered
  pub authorized : e.waived ≡ false
  pub bound : (q.capability ≡ "") ⊎ (e.capability ≡ q.capability)
  pub fresh : q.now ≤ e.ts * 1000000 + receipt_ttl

check_entry-Buys : (e : Entry) (q : Request) → check_entry e q.capability q.now ≡ none → Buys e q
unfolding check_entry
check_entry-Buys e q h = record {
  delivered = ground (arith, str_eq_iff e.outcome outcome_delivered);
  authorized = ground arith;
  bound = elim (Bool-cases (q.capability == "")) [
    | inl any ↦ inl (ground (arith, str_eq_iff q.capability ""))
    | inr one ↦ inr (ground (arith, str_eq_iff e.capability q.capability))
  ];
  fresh = ground arith;
}

module _ (env : Outside) where
  abbrev plain : String → Option String
  plain name = decrypt env name

  abbrev plains : List String → Dict String String → String ⊎ Dict String String
  plains names values = decrypt_all env names values

  decrypt_all_lem :
      (names : List String) (values out : Dict String String) (n : String)
      → plains names values ≡ inr out
      → lookup n out ≡ (if contains names n then plain n else lookup n values)
  unfolding decrypt_all
  decrypt_all_lem [] values out n h = ground (arith, h)
  decrypt_all_lem (name ∷ names) values out n h = elim (Option-cases (plain name)) [
    | inl missing ↦ absurd (ground (arith, h, missing))
    | inr (v, got) ↦
        let rest =
          decrypt_all_lem names (insert name v values) out n (rw (decrypt_all, got) at h) in
        ground (arith, rest, got, str_eq_iff name n, lookup-insert name n v values)
  ]

  release_entry :
      (e : Entry) (names : List String) (g : Grant) (name : String)
      → release env e names ≡ granted g
      → (g.capability ≡ e.capability)
        × (g.seq ≡ e.seq)
        × (lookup name g.values ≡ (if contains names name then plain name else none))
  unfolding release lookup
  release_entry e names g name h = elim (Sum-cases (decrypt_all env names [])) [
    | inl (unopened, missing) ↦ absurd (ground (arith, h, missing))
    | inr (values, got) ↦
        let all : g.values ≡ values = ground (arith, h, got) in
        (
          ground (arith, h, got),
          ground (arith, h, got),
          ground (arith, all, decrypt_all_lem names [] values name got),
        )
  ]

  abbrev answer : Broker → Request → Broker × Reply
  answer b q = resolve env b q

  -- A grant is made only on a receipt that names a sealed entry, delivered under the node's own
  -- authority, of the capability that asks where one is named, at most 90 seconds old and with the
  -- broker's present counter of it, which a sweep sets back to zero, below three; it carries that
  -- entry's capability and number, and under each requested name what the store's row of that name
  -- decrypts to, under any other nothing.
  pub resolve_authorized :
      (b : Broker) (q : Request) (g : Grant) (name : String)
      → (answer b q).1 ≡ granted g
      → (e : Entry) × (entry_of env q.receipt ≡ inr e)
        × Buys e q
        × (redemptions b q.receipt < max_uses)
        × (g.capability ≡ e.capability)
        × (g.seq ≡ e.seq)
        × (lookup name g.values ≡ (if contains q.names name then plain name else none))
  unfolding resolve spend
  resolve_authorized b q g name h = elim (Bool-cases (q.receipt == "")) [
    | inl none_given ↦ absurd (ground (arith, h))
    | inr given ↦ elim (Bool-cases (leb (length q.names) 0)) [
      | inl none_asked ↦ absurd (ground (arith, h))
      | inr asked ↦ elim (Sum-cases (entry_of env q.receipt)) [
        | inl (err, unknown) ↦ absurd (ground (arith, h, unknown))
        | inr (e, sealed) ↦ elim (Option-cases (check_entry e q.capability q.now)) [
          | inr (err, bad) ↦ absurd (ground (arith, h, sealed, bad))
          | inl good ↦
              let few : leb max_uses (redemptions b q.receipt) ≡ false =
                ground (arith, h, sealed, good) in
              let gave : release env e q.names ≡ granted g = ground (arith, h, sealed, good, few) in
              let (cap, seq, opened) = release_entry e q.names g name gave in
              (e, sealed, check_entry-Buys e q good, ground arith, cap, seq, opened)
        ]
      ]
    ]
  ]

  -- How many of the replies grant something on the receipt.
  abbrev pub grant_on : String → Request → Reply → ℕ
  grant_on receipt q (granted g) = if q.receipt == receipt then 1 else 0
  grant_on receipt q (refused err) = 0

  unfoldable pub grants_on : String → List Request → List Reply → ℕ
  grants_on receipt [] replies = 0
  grants_on receipt (q ∷ qs) [] = 0
  grants_on receipt (q ∷ qs) (reply ∷ replies) =
      grant_on receipt q reply + grants_on receipt qs replies

  redeem_lem :
      (b : Broker) (k r : String)
      → length b.used < sweep_above
      → (redemptions (redeem b k) r ≡ (if k == r then redemptions b k + 1 else redemptions b r))
        × (length (redeem b k).used ≤ length b.used + 1)
  unfolding redeem redemptions
  redeem_lem b k r few =
      let small : ltb sweep_above (length (insert k (redemptions b k + 1) b.used)) ≡ false =
        ground (arith, length-insert k (redemptions b k + 1) b.used) in
      (
        rw small (ground (arith, lookup-insert k r (redemptions b k + 1) b.used)),
        rw small (length-insert k (redemptions b k + 1) b.used),
      )

  answer_cases :
      (b : Broker) (q : Request)
      → ((err : BrokerError) × (answer b q ≡ (b, refused err)))
        ⊎ ((redemptions b q.receipt < max_uses)
            × (reply : Reply) × (answer b q ≡ (redeem b q.receipt, reply)))
  unfolding resolve spend
  answer_cases b q = elim (Bool-cases (q.receipt == "")) [
    | inl bare ↦ inl (no_receipt, rw (resolve, bare) refl)
    | inr given ↦ elim (Bool-cases (leb (length q.names) 0)) [
      | inl silent ↦ inl (no_names, rw (resolve, given, silent) refl)
      | inr asked ↦ elim (Sum-cases (entry_of env q.receipt)) [
        | inl (err, unknown) ↦ inl (err, rw (resolve, given, asked, unknown) refl)
        | inr (e, sealed) ↦ elim (Option-cases (check_entry e q.capability q.now)) [
          | inr (err, bad) ↦ inl (err, rw (resolve, given, asked, sealed, spend, bad) refl)
          | inl good ↦ elim (Bool-cases (leb max_uses (redemptions b q.receipt))) [
            | inl gone ↦ inl (spent, rw (resolve, given, asked, sealed, spend, good, gone) refl)
            | inr left_over ↦ inr (
              ground arith,
              release env e q.names,
              rw (resolve, given, asked, sealed, spend, good, left_over) refl,
            )
          ]
        ]
      ]
    ]
  ]

  grant_on_le :
      (r : String) (q : Request) (reply : Reply)
      → grant_on r q reply ≤ (if q.receipt == r then 1 else 0)
  grant_on_le r q (granted g) = omega arith
  grant_on_le r q (refused err) = omega arith

  -- One request counts what it grants, leaves the counters of other receipts alone, and needs no sweep.
  step_lem :
      (b : Broker) (q : Request) (r : String)
      → length b.used < sweep_above
      → (redemptions b r + grant_on r q (answer b q).1 ≤ redemptions (answer b q).0 r)
        × (redemptions (answer b q).0 r ≤ max max_uses (redemptions b r))
        × (length (answer b q).0.used ≤ length b.used + 1)
  unfolding resolve spend
  step_lem b q r few = elim (answer_cases b q) [
    | inl (err, e) ↦ rw e (omega arith, omega arith, omega arith)
    | inr (room, reply, e) ↦
        let (now, long) = redeem_lem b q.receipt r few in
        let one = grant_on_le r q reply in
        rw e (
          ground (arith, now, one, str_eq_iff q.receipt r),
          ground (arith, now, room, str_eq_iff q.receipt r),
          long,
        )
  ]

  -- From a broker with u counters, over any 4096 - u requests or fewer, a receipt that was redeemed
  -- n times is granted no more than max(3, n) - n times, whatever the requests ask.
  pub grants_bounded :
      (b : Broker) (qs : List Request) (r : String)
      → length b.used + length qs ≤ sweep_above
      → grants_on r qs (resolve_all env b qs).1 + redemptions b r ≤ max max_uses (redemptions b r)
  unfolding resolve_all grants_on
  grants_bounded b [] r few = omega arith
  grants_bounded b (q ∷ qs) r few =
      let (counted, capped, grown) = step_lem b q r (omega arith) in
      omega (
        arith,
        counted,
        capped,
        grown,
        grants_bounded (answer b q).0 qs r (omega (arith, grown, few)),
      )
