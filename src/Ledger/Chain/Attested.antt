-- ===== src/Ledger/Chain/Attested.antt =====
-- What `Seal` of ledger.go leaves in the rows: one entry that says what was asked, or nothing.
use deepaxiom_aura.Base.{String, ◌⊎◌, inl, inr, [], ◌∷◌, ◌++◌, ◌≡◌, refl, Option-cases, Bool-cases}
use deepaxiom_aura.Ledger.Records.{
  Entry, Ledger, World, SealRequest, SealReply, SealError, unsealed, broken_tree,
  approval_unverifiable, not_stored, validate_vocabulary, Outside,
}
use deepaxiom_aura.Ledger.Merkle.{append_leaf}
use deepaxiom_aura.Ledger.Chain.{
  approver_ok, next_entry, seal_checkpoint, checkpoint_due, after_append, append_entry, seal,
}

-- The reply carries no receipt.
abbrev pub Refused : SealReply → Type 0
Refused reply = ((err : SealError) × (reply ≡ unsealed err)) ⊎ (reply ≡ broken_tree)

module _ {Approval Hash Raw : Type 0} (env : Outside Approval Hash Raw) where
  -- The rows are one longer, by an entry of this envelope, capability and outcome; or they are the same,
  -- and the reply carries no receipt.
  abbrev pub Attests :
      Ledger Hash Raw → Ledger Hash Raw → SealReply → String → String → String → Type 0
  Attests l l' reply envelope capability outcome =
      ((e : Entry Approval) × (l'.entries ≡ l.entries ++ env.marshal e ∷ [])
        × (e.envelope ≡ envelope)
        × (e.capability ≡ capability)
        × (e.outcome ≡ outcome))
      ⊎ Refused reply × (l' ≡ l)

  after_append_rows :
      (l : Ledger Hash Raw) (w : World) (receipt : String)
      → (after_append env l w receipt).0.entries ≡ l.entries
  unfolding after_append seal_checkpoint
  after_append_rows l w receipt = elim (Bool-cases (checkpoint_due env l w)) [
    | inl due ↦ elim (Bool-cases w.checkpoint_stored) [
      | inl ok ↦ rw (due, ok) refl
      | inr bad ↦ rw (due, bad) refl
    ]
    | inr early ↦ rw early refl
  ]

  pub seal-Attests :
      (l : Ledger Hash Raw) (w : World) (req : SealRequest Approval)
      → let (l', reply) = seal env l w req in
        Attests l l' reply req.envelope req.capability req.outcome
  unfolding seal next_entry append_entry
  seal-Attests l w req = elim (Option-cases (validate_vocabulary req)) [
    | inr (err, bad) ↦ rw (seal, bad) (inr (inl (err, refl), refl))
    | inl fine ↦ elim (Bool-cases (approver_ok env req.approver l.node_id req.session)) [
      | inr unsigned ↦ rw (seal, fine, unsigned) (inr (inl (approval_unverifiable, refl), refl))
      | inl signed ↦ elim (Bool-cases w.entry_stored) [
        | inr lost ↦
            rw (seal, fine, signed, append_entry, lost) (inr (inl (not_stored, refl), refl))
        | inl kept ↦
            let e = next_entry env l req w.now in
            elim (Option-cases
              (append_leaf env.interior env.empty_root l.tree (env.leaf_hash (env.marshal e)))) [
                | inl failed ↦
                    rw (seal, fine, signed, append_entry, kept, failed) (inr (inr refl, refl))
                | inr (tree', grew) ↦
                    rw (seal, fine, signed, append_entry, kept, grew)
                      (inl (e, after_append_rows _ w _, refl, refl, refl))
              ]
      ]
    ]
  ]
