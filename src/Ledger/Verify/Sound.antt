-- ===== src/Ledger/Verify/Sound.antt =====
-- A report that is sound (`Sound` of kernel/internal/ledger/verify.go), traced back to what was stored.
use deepaxiom_aura.Base.{
  ◌≡◌, refl, sym, ap, ◌∙◌, String, true, false, none, some, inl, inr, List, [], string_eq, nat_eq,
  map, arith, Bool-cases, Option-cases, Sum-cases, length, lookup,
}
use deepaxiom_aura.Signing.{Crypto, signed_as}
use deepaxiom_aura.Ledger.Merkle.Compact.{top}
use deepaxiom_aura.Ledger.Records.{Outside, Walked, CheckpointRow, start}
use deepaxiom_aura.Ledger.Chain.{verify_chain}
use deepaxiom_aura.Ledger.Succession.{KeyTimeline, SuccessionRow, build_key_timeline}
use deepaxiom_aura.Ledger.Verify.{
  Stored, Report, Statement, of_succession, Observed, reported, sound, observe_all, with_signatures,
  verify_signatures, verify_rows, verify_ledger, root_string, with_approvals, blank,
}
use deepaxiom_aura.Ledger.Verify.Observations.{IsTrueOf, observe_all-IsTrueOf}
use deepaxiom_aura.Ledger.Verify.Verdict.{AllBacked, all_clean, clean_backed}

module _ {Approval Hash Raw : Type 0} (env : Outside Approval Hash Raw)
    (crypto : Crypto Statement) where
  -- What a sound report with a key rests on, in what the store gave.
  abbrev pub IsBackedBy : Stored Raw → String → Report → Type 0
  IsBackedBy st pubkey r =
      (rows : List Raw) × (checkpoints : List CheckpointRow) × (successions : List SuccessionRow)
      × (timeline : KeyTimeline) × (v : Walked Hash) × (st.entries ≡ some rows)
      × (st.checkpoints ≡ some checkpoints)
      × (st.successions ≡ some successions)
      × (verify_chain env rows ≡ inr v)
      × (v.approvals_invalid ≡ 0)
      × (build_key_timeline (signed_as of_succession crypto) successions pubkey ≡ inr timeline)
      × AllBacked env crypto rows timeline checkpoints

  sound_parts :
      (r : Report)
      → sound r ≡ true
      → r.key_available ≡ true
      → (r.chain_intact ≡ true)
        × (r.merkle_mismatches ≡ 0)
        × (r.succession_failure ≡ none)
        × (r.checkpoints_valid ≡ r.checkpoints)
        × (r.approvals_invalid ≡ 0)
  unfolding sound
  sound_parts r h key = elim (Option-cases r.succession_failure) [
    | inl fine ↦
        (ground (arith, h), ground (arith, h), fine, ground (arith, h, key), ground (arith, h))
    | inr (err, bad) ↦ absurd (ground (arith, h, bad))
  ]

  signatures_sound :
      (st : Stored Raw) (pubkey : String) (r0 r : Report) (o : Observed Approval Hash)
      (rows : List Raw) (checkpoints : List CheckpointRow)
      → verify_signatures env crypto st r0 o rows checkpoints pubkey ≡ reported r
      → r0.checkpoints ≡ length checkpoints
      → r0.approvals_invalid ≡ o.walked.approvals_invalid
      → IsTrueOf env rows o
      → sound r ≡ true
      → r.key_available ≡ true
      → (successions : List SuccessionRow) × (timeline : KeyTimeline) × (st.successions
          ≡ some successions)
        × (o.walked.approvals_invalid ≡ 0)
        × (build_key_timeline (signed_as of_succession crypto) successions pubkey ≡ inr timeline)
        × AllBacked env crypto rows timeline checkpoints
  unfolding verify_signatures with_signatures
  signatures_sound st pubkey r0 r o rows checkpoints h total approved t good key =
      let (chain, agree, fine, full, ok) = sound_parts r good key in
      elim (Bool-cases r0.key_available) [
        | inr keyless ↦
            let same : r0 ≡ r = ground (arith, rw (verify_signatures, keyless) at h) in
            absurd (ground (arith, same, keyless, key))
        | inl with_key ↦ elim (Option-cases st.successions) [
          | inl unread ↦ absurd (ground (arith, rw (verify_signatures, with_key, unread) at h))
          | inr (successions, read) ↦
              elim (Sum-cases
                (build_key_timeline (signed_as of_succession crypto) successions pubkey)) [
                  | inl (err, bad) ↦
                      let same : record r0 { succession_failure = some err } ≡ r =
                        ground (arith, rw (verify_signatures, with_key, read, bad) at h) in
                      absurd (ground (arith, same, fine))
                  | inr (timeline, built) ↦
                      let same : with_signatures env crypto r0 timeline o rows checkpoints
                            st.witnesses
                          ≡ r =
                        ground (arith, rw (verify_signatures, with_key, read, built) at h) in
                      (
                        successions,
                        timeline,
                        read,
                        sym approved ∙ ap (λ (x : Report). x.approvals_invalid) same ∙ ok,
                        built,
                        clean_backed env crypto rows timeline o checkpoints t (
                            all_clean env crypto timeline o checkpoints
                              (record { valid = 0; with_root = 0; mismatches = 0 })
                              (ap (λ (x : Report). x.checkpoints_valid) same
                                ∙ full
                                ∙ sym (ap (λ (x : Report). x.checkpoints) same)
                                ∙ total
                                ∙ omega arith)
                              (ap (λ (x : Report). x.merkle_mismatches) same ∙ agree)),
                      )
                ]
        ]
      ]

  abbrev nothing_yet : Observed Approval Hash
  nothing_yet = record { walked = start; by_hash = []; root_at = [] }

  nothing_seen : IsTrueOf env [] nothing_yet
  unfolding lookup
  nothing_seen = record {
    position = refl;
    holds = record { levels = top refl; counted = refl };
    by_hash = λ hash e there. absurd (ground (arith, there));
    root_at = λ n h there. absurd (ground (arith, there));
  }

  rows_sound :
      (st : Stored Raw) (pubkey : String) (r : Report) (rows : List Raw)
      (checkpoints : List CheckpointRow)
      → verify_rows env crypto st rows checkpoints pubkey ≡ reported r
      → sound r ≡ true
      → r.key_available ≡ true
      → (successions : List SuccessionRow) × (timeline : KeyTimeline) × (v : Walked Hash)
        × (st.successions ≡ some successions)
        × (verify_chain env rows ≡ inr v)
        × (v.approvals_invalid ≡ 0)
        × (build_key_timeline (signed_as of_succession crypto) successions pubkey ≡ inr timeline)
        × AllBacked env crypto rows timeline checkpoints
  unfolding verify_rows verify_chain
  rows_sound st pubkey r rows checkpoints h good key =
      let wanted = map (λ (cp : CheckpointRow). cp.seq) checkpoints in
      let (o, broken) = observe_all env wanted nothing_yet rows in
      let r0 =
        with_approvals env crypto (blank env crypto (length rows) (length checkpoints) pubkey)
          o.walked in
      elim (Option-cases broken) [
        | inr (place, bad) ↦
            let same : record r0 { chain_intact = false; broken = some place } ≡ r =
              ground (arith, rw (verify_rows, bad) at h) in
            absurd (ground (arith, same, sound_parts r good key))
        | inl whole ↦
            let (t, on) =
              observe_all-IsTrueOf env wanted rows [] nothing_yet o nothing_seen
                (ap (λ b. (o, b)) whole) in
            let (successions, timeline, read, approved, built, backed) =
              signatures_sound st pubkey
                (record r0 { merkle_root = root_string env crypto o.walked }) r o rows checkpoints
                (rw (verify_rows, whole) at h) refl refl t good key in
            (successions, timeline, o.walked, read, on, approved, built, backed)
      ]

  -- If verify_ledger gives a report with a key and the report is sound, then the walk of
  -- verify_chain accepts the stored rows with no invalid approval, the handovers give a key
  -- timeline, and each stored checkpoint names an entry of the rows by its hash and number, is
  -- signed by the key in force at that number, and commits either to no root or to the Merkle root
  -- of the rows up to it.
  pub sound_verdict :
      (st : Stored Raw) (pubkey : String) (r : Report)
      → verify_ledger env crypto st pubkey ≡ reported r
      → sound r ≡ true
      → r.key_available ≡ true
      → IsBackedBy st pubkey r
  unfolding verify_ledger
  sound_verdict st pubkey r h good key = elim (Option-cases st.entries) [
    | inl unread ↦ absurd (ground (arith, rw (verify_ledger, unread) at h))
    | inr (rows, read) ↦ elim (Option-cases st.checkpoints) [
      | inl unread ↦ absurd (ground (arith, rw (verify_ledger, read, unread) at h))
      | inr (checkpoints, read') ↦
          let (successions, timeline, v, read'', on, approved, built, backed) =
            rows_sound st pubkey r rows checkpoints (rw (verify_ledger, read, read') at h) good
              key in
          (
            rows, checkpoints, successions, timeline, v, read, read', read'', on, approved, built,
            backed,
          )
    ]
  ]
