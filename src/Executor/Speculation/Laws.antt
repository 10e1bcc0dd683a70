-- ===== src/Executor/Speculation/Laws.antt =====
-- What the speculation index of speculation.go promises: it stays bounded, and a guess is settled once.
use deepaxiom_aura.Base.{
  ◌<◌, ◌≡◌, refl, sym, ap, ◌∙◌, String, none, some, [], ◌∷◌, ◌++◌, arith, string_eq, if◌then◌else◌,
  is_some, lookup, lookup-insert, lookup-erase, beq_refl, Option-cases, inl, inr,
}
use deepaxiom_aura.Fifo.{
  push_kept, lookup-adjust, lookup-drop_oldest, Tracks, push_last-Tracks, adjust-Tracks,
  remove-Tracks,
}
use deepaxiom_aura.Executor.Speculation.{
  Encoding, RawMessage, SpecKey, SpecState, SpecIndex, spec_key_eq, empty_state, get_state,
  write_state, speculate_on, speculate, forget, fold, content_equal, resolve, accumulate,
}

-- The order lists exactly the streams of the map, at most `max` of them.
pub record Spec-Inv (x : SpecIndex) : Type 0 where
  pub tracks : Tracks x.max x.order x.state
  pub room : 0 < x.max

pub get_state-Inv : (x : SpecIndex) (k : SpecKey) → Spec-Inv x → Spec-Inv (get_state x k).0
unfolding get_state
get_state-Inv x k v = elim (Option-cases (lookup k x.state)) [
  | inl new ↦
      rw (get_state, new)
        (record {
          tracks =
              push_last-Tracks x.max x.order x.state v.tracks k empty_state v.room
                (sym (v.tracks.keys k) ∙ ap is_some new);
          room = v.room;
        })
  | inr (st, old) ↦ rw (get_state, old) v
]

pub write_state-Inv :
    (x : SpecIndex) (k : SpecKey) (f : SpecState → SpecState)
    → Spec-Inv x
    → Spec-Inv (write_state x k f)
unfolding write_state
write_state-Inv x k f v = record {
  tracks = adjust-Tracks x.max x.order x.state v.tracks k f;
  room = v.room;
}

-- The pointer that `get` hands out is of a state the map still holds.
pub get_state_held :
    (x : SpecIndex) (k : SpecKey)
    → Spec-Inv x
    → lookup k (get_state x k).0.state ≡ some (get_state x k).1
unfolding get_state
get_state_held x k v = elim (Option-cases (lookup k x.state)) [
  | inl new ↦
      let fresh = sym (v.tracks.keys k) ∙ ap is_some new in
      rw (get_state, new)
        (rw lookup-drop_oldest (
          ground (
            arith,
            lookup-insert k k empty_state x.state,
            beq_refl k,
            push_kept x.max x.order k v.room fresh,
          )))
  | inr (st, old) ↦ rw (get_state, old) old
]

pub speculate-Inv :
    (x : SpecIndex) (k : SpecKey) (id : String) → Spec-Inv x → Spec-Inv (speculate x k id)
unfolding speculate
speculate-Inv x k id v =
    let w = write_state-Inv (get_state x k).0 k (speculate_on id) (get_state-Inv x k v) in
    record { tracks = w.tracks; room = w.room }

forgotten : (x : SpecIndex) (k : SpecKey) → lookup k (forget x k).state ≡ none
unfolding forget
forgotten x k = rw (lookup-erase, beq_refl k) refl

forget-Inv : (x : SpecIndex) (k : SpecKey) → Spec-Inv x → Spec-Inv (forget x k)
unfolding forget
forget-Inv x k v = record { tracks = remove-Tracks x.max x.order x.state v.tracks k; room = v.room }

speculate_state :
    (x : SpecIndex) (k : SpecKey) (id : String)
    → Spec-Inv x
    → lookup k (speculate x k id).state ≡ some (speculate_on id (get_state x k).1)
unfolding speculate write_state
speculate_state x k id v = rw (lookup-adjust, beq_refl k, get_state_held x k v) refl

module _ {Other : Type 0} (json : Encoding Other) where
  pub fold-Inv :
      (x : SpecIndex) (k : SpecKey) (schema : String) (payload : RawMessage)
      → Spec-Inv x
      → Spec-Inv (fold json x k schema payload).0
  unfolding fold
  fold-Inv x k schema payload v = write_state-Inv (get_state x k).0 k _ (get_state-Inv x k v)

  -- resolve keeps the speculation index within its bound, its order listing exactly the streams,
  -- whether it settles a guess or finds none.
  pub resolve-Inv :
      (x : SpecIndex) (k : SpecKey) (final : RawMessage)
      → Spec-Inv x
      → Spec-Inv (resolve json x k final).0
  unfolding resolve
  resolve-Inv x k final v = elim (Option-cases (lookup k x.state)) [
    | inl missing ↦ rw (resolve, missing) v
    | inr (st, found) ↦ elim (Option-cases st.speculated_on) [
      | inl unguessed ↦ rw (resolve, found, unguessed) v
      | inr (guess, made) ↦
          rw (resolve, found, made) (forget-Inv _ k (record { tracks = v.tracks; room = v.room }))
    ]
  ]

  fold_state :
      (x : SpecIndex) (k : SpecKey) (schema : String) (payload : RawMessage) (st : SpecState)
      → lookup k x.state ≡ some st
      → let folded = accumulate json schema st.accumulated payload in
        ((fold json x k schema payload).1 ≡ folded)
        × (lookup k (fold json x k schema payload).0.state
            ≡ some (record st { accumulated = folded }))
  unfolding fold get_state write_state
  fold_state x k schema payload st held =
      rw (get_state, held) (refl, rw (lookup-adjust, beq_refl k, held) refl)

  -- In an index that is well-formed, a guess made on a running value is settled when the last
  -- payload of its stream is folded in and the value that this gives is resolved: that value is the
  -- guessed one with the payload accumulated, it is a hit exactly when it has the content of the
  -- guess, a miss returns every delivery of the stream, this one included, and the index has no
  -- state of the stream any more.
  pub speculate-resolve :
      (x : SpecIndex) (k : SpecKey) (id schema guess : String) (payload : RawMessage)
      → Spec-Inv x
      → (get_state x k).1.accumulated ≡ some guess
      → let (folded, running) = fold json (speculate x k id) k schema payload in
        let same = content_equal json (some guess) running in
        let (after, hit, stale) = resolve json folded k running in
        (running ≡ accumulate json schema (some guess) payload)
        × (hit ≡ same)
        × (stale ≡ (if same then [] else (get_state x k).1.deliveries ++ id ∷ []))
        × (lookup k after.state ≡ none)
  unfolding resolve
  speculate-resolve x k id schema guess payload v guessed =
      let st = speculate_on id (get_state x k).1 in
      let (ran, held) =
        fold_state (speculate x k id) k schema payload st (speculate_state x k id v) in
      rw (resolve, held, guessed)
        (ran ∙ ap (λ r. accumulate json schema r payload) guessed, refl, refl, forgotten _ k)
