-- ===== src/Ledger/Verify/Verdict.antt =====
-- What the verdict SOUND of `Verify` (kernel/internal/ledger/verify.go) says of the stored rows.
use deepaxiom_aura.Base.{
  ℕ, ◌+◌, ◌≤◌, ◌≡◌, sym, ap, ◌∙◌, String, true, none, some, ◌⊎◌, inl, inr, List, [], ◌∷◌, ◌==◌,
  string_eq, nat_eq, str_eq_iff, arith, Bool-cases, Option-cases, length, take, Dict, lookup,
}
use deepaxiom_aura.Signing.{Crypto, signed_as, verify}
use deepaxiom_aura.Ledger.Records.{Outside, Entry, CheckpointRow, checkpoint_payload}
use deepaxiom_aura.Ledger.Succession.{KeyTimeline, key_at}
use deepaxiom_aura.Ledger.Verify.{
  Statement, of_checkpoint, Observed, Counts, root_agrees, checkpoint_valid, check_checkpoint,
  check_checkpoints,
}
use deepaxiom_aura.Ledger.Verify.Observations.{StandsIn, head_of, IsTrueOf}

module _ {Approval Hash Raw : Type 0} (env : Outside Approval Hash Raw)
    (crypto : Crypto Statement) where
  abbrev SignedBy : KeyTimeline → CheckpointRow → Type 0
  SignedBy timeline cp =
      verify (signed_as of_checkpoint crypto) (key_at timeline cp.seq) cp.signature
        (checkpoint_payload cp.seq cp.head_hash cp.merkle_root)
      ≡ none

  -- A checkpoint names an entry of the rows by its hash and its number, the key that was in force at
  -- that number signed it, and the root that it commits to, if any, is the head of the rows up to it.
  abbrev pub IsBacked : List Raw → KeyTimeline → CheckpointRow → Type 0
  IsBacked rows timeline cp =
      (e : Entry Approval) × StandsIn env rows cp.head_hash e
      × (e.seq ≡ cp.seq)
      × SignedBy timeline cp
      × ((cp.merkle_root ≡ "") ⊎ (env.root_text (head_of env (take cp.seq rows)) ≡ cp.merkle_root))

  abbrev pub AllBacked : List Raw → KeyTimeline → List CheckpointRow → Type 0
  AllBacked rows timeline [] = Unit
  AllBacked rows timeline (cp ∷ cps) = IsBacked rows timeline cp × AllBacked rows timeline cps

  -- A checkpoint that is counted as valid and not as a mismatch.
  abbrev pub IsClean : KeyTimeline → Observed Approval Hash → CheckpointRow → Type 0
  IsClean timeline o cp =
      (checkpoint_valid env crypto timeline o cp ≡ true)
      × ((cp.merkle_root ≡ "") ⊎ (root_agrees env o.root_at cp.seq cp.merkle_root ≡ true))

  abbrev pub AllClean : KeyTimeline → Observed Approval Hash → List CheckpointRow → Type 0
  AllClean timeline o [] = Unit
  AllClean timeline o (cp ∷ cps) = IsClean timeline o cp × AllClean timeline o cps

  abbrev counted : KeyTimeline → Observed Approval Hash → Counts → List CheckpointRow → Counts
  counted timeline o n cps = check_checkpoints env crypto timeline o n cps

  -- One checkpoint adds at most one valid, and takes no mismatch away.
  count_one :
      (timeline : KeyTimeline) (o : Observed Approval Hash) (cp : CheckpointRow) (n : Counts)
      → ((check_checkpoint env crypto timeline o n cp).valid ≤ n.valid + 1)
        × (n.mismatches ≤ (check_checkpoint env crypto timeline o n cp).mismatches)
  unfolding check_checkpoint
  count_one timeline o cp n = ground arith

  one-IsClean :
      (timeline : KeyTimeline) (o : Observed Approval Hash) (cp : CheckpointRow) (n : Counts)
      → (check_checkpoint env crypto timeline o n cp).valid ≡ n.valid + 1
      → (check_checkpoint env crypto timeline o n cp).mismatches ≡ 0
      → IsClean timeline o cp
  unfolding check_checkpoint
  one-IsClean timeline o cp n one none_wrong =
      elim (Bool-cases (checkpoint_valid env crypto timeline o cp)) [
        | inr bad ↦ absurd (ground (arith, one, bad))
        | inl ok ↦ elim (Bool-cases (cp.merkle_root == "")) [
          | inl v1 ↦ (ok, inl ((str_eq_iff cp.merkle_root "").0 v1))
          | inr v2 ↦ elim (Bool-cases (root_agrees env o.root_at cp.seq cp.merkle_root)) [
            | inl same ↦ (ok, inr same)
            | inr other ↦ absurd (ground (arith, none_wrong, ok, v2, other))
          ]
        ]
      ]

  counts_grow :
      (timeline : KeyTimeline) (o : Observed Approval Hash) (cps : List CheckpointRow) (n : Counts)
      → ((counted timeline o n cps).valid ≤ n.valid + length cps)
        × (n.mismatches ≤ (counted timeline o n cps).mismatches)
  unfolding check_checkpoints
  counts_grow timeline o [] n = (omega arith, omega arith)
  counts_grow timeline o (cp ∷ cps) n =
      let (more, no_less) =
        counts_grow timeline o cps (check_checkpoint env crypto timeline o n cp) in
      let (one, held) = count_one timeline o cp n in
      (omega (arith, more, one), omega (arith, no_less, held))

  pub all_clean :
      (timeline : KeyTimeline) (o : Observed Approval Hash) (cps : List CheckpointRow) (n : Counts)
      → (counted timeline o n cps).valid ≡ n.valid + length cps
      → (counted timeline o n cps).mismatches ≡ 0
      → AllClean timeline o cps
  unfolding check_checkpoints
  all_clean timeline o [] n full none_wrong = tt
  all_clean timeline o (cp ∷ cps) n full none_wrong =
      let n' = check_checkpoint env crypto timeline o n cp in
      let (more, no_less) = counts_grow timeline o cps n' in
      let (one, held) = count_one timeline o cp n in
      (
        one-IsClean timeline o cp n (omega (arith, more, one, full))
            (omega (arith, no_less, none_wrong)),
        all_clean timeline o cps n' (omega (arith, more, one, full)) none_wrong,
      )

  root_agrees_sound :
      (root_at : Dict ℕ Hash) (seq : ℕ) (root : String)
      → root_agrees env root_at seq root ≡ true
      → (h : Hash) × (lookup seq root_at ≡ some h) × (env.root_text h ≡ root)
  unfolding root_agrees
  root_agrees_sound root_at seq root ok = elim (Option-cases (lookup seq root_at)) [
    | inl gone ↦ absurd (ground (arith, ok, gone))
    | inr (h, there) ↦ (h, there, ground (arith, ok, there, str_eq_iff (env.root_text h) root))
  ]

  checkpoint_valid_sound :
      (timeline : KeyTimeline) (o : Observed Approval Hash) (cp : CheckpointRow)
      → checkpoint_valid env crypto timeline o cp ≡ true
      → (e : Entry Approval) × (lookup cp.head_hash o.by_hash ≡ some e)
        × (e.seq ≡ cp.seq)
        × SignedBy timeline cp
  unfolding checkpoint_valid
  checkpoint_valid_sound timeline o cp ok = elim (Option-cases (lookup cp.head_hash o.by_hash)) [
    | inl gone ↦ absurd (ground (arith, ok, gone))
    | inr (e, there) ↦
        elim (Option-cases (
          verify (signed_as of_checkpoint crypto) (key_at timeline cp.seq) cp.signature
            (checkpoint_payload cp.seq cp.head_hash cp.merkle_root))) [
              | inr (err, bad) ↦ absurd (ground (arith, ok, there, bad))
              | inl good ↦ (e, there, ground (arith, ok, there), good)
            ]
  ]

  pub clean_backed :
      (rows : List Raw) (timeline : KeyTimeline) (o : Observed Approval Hash)
      (cps : List CheckpointRow)
      → IsTrueOf env rows o
      → AllClean timeline o cps
      → AllBacked rows timeline cps
  clean_backed rows timeline o [] t clean = tt
  clean_backed rows timeline o (cp ∷ cps) t clean =
      let (e, there, seq, signed) = checkpoint_valid_sound timeline o cp clean.0.0 in
      (
        (
          e,
          t.by_hash cp.head_hash e there,
          seq,
          signed,
          elim clean.0.1 [
            | inl v1 ↦ inl v1
            | inr same ↦
                let (h, at, text) = root_agrees_sound o.root_at cp.seq cp.merkle_root same in
                inr (ap env.root_text (sym (t.root_at cp.seq h at).1) ∙ text)
          ],
        ),
        clean_backed rows timeline o cps t clean.1,
      )
