-- ===== src/Executor/Causal/Attest.antt =====
-- `attestIndex` of causal.go: bounded twice over, and honest about what it left out.
use deepaxiom_aura.Base.{
  ◌<◌, ◌≤◌, ◌≡◌, refl, sym, ◌∙◌, String, Bool, true, false, ◌||◌, Option, none, some, List, [], ◌∷◌,
  ◌++◌, arith, ◌==◌, string_eq, if◌then◌else◌, length, length-append, contains, Distinct,
  Distinct-snoc, Dict, is_some, lookup, insert, str_eq_iff, lookup-insert, lookup-erase, leb,
  Bool-cases, Option-cases, inl, inr,
}
use deepaxiom_aura.Fifo.{push, drop_oldest, Tracks, push-Tracks, insert-Tracks, fell_out}
use deepaxiom_aura.Executor.Causal.{AttestIndex, track_root, attest_add, slice_at, bool_at}

pub record Attest-Inv (a : AttestIndex) : Type 0 where
  pub tracks : Tracks a.max a.order a.hashes
  pub room : 0 < a.max
  pub room_per_root : 0 < a.max_per_root
  pub few : (r : String) → length (slice_at r a.hashes) ≤ a.max_per_root
  pub once : (r : String) → Distinct (slice_at r a.hashes)
  pub marked :
      (r : String) → bool_at r a.truncated ≡ true → length (slice_at r a.hashes) ≡ a.max_per_root

-- What a tracked chain's new attestation leads to, and what a new chain's first one does.
abbrev pub add_more : AttestIndex → String → String → AttestIndex
add_more a root hash =
    let existing = slice_at root a.hashes in
    if contains existing hash
    then a
    else if leb a.max_per_root (length existing)
    then record a { truncated = insert root true a.truncated }
    else record a { hashes = insert root (existing ++ hash ∷ []) a.hashes }

abbrev pub add_first : AttestIndex → String → String → AttestIndex
add_first a root hash =
    let (order', oldest) = push a.max a.order root in
    record a {
      hashes = insert root (hash ∷ []) (drop_oldest oldest a.hashes);
      truncated = drop_oldest oldest a.truncated;
      order = order';
    }

pub add_cases :
    (a : AttestIndex) (root hash : String)
    → 0 < a.max_per_root
    → attest_add a root hash ≡ (
        if (root == "") || (hash == "")
        then a
        else if is_some (lookup root a.hashes)
        then add_more a root hash
        else add_first a root hash)
unfolding attest_add track_root slice_at
add_cases a root hash h = elim (Option-cases (lookup root a.hashes)) [
  | inl new ↦ rw new (ground arith)
  | inr (hs, old) ↦ rw old (ground arith)
]

either {ℓ κ} :
    {A : Type ℓ} (P : A → Type κ) (test : Bool) {met unmet : A}
    → P met
    → P unmet
    → P (if test then met else unmet)
either P false on off = off
either P true on off = on

module _ (k r : String) where
  pub slice-insert :
      (v : List String) (m : Dict String (List String))
      → slice_at r (insert k v m) ≡ (if k == r then v else slice_at r m)
  unfolding slice_at
  slice-insert v m = rw lookup-insert (ground arith)

  pub bool-insert :
      (v : Bool) (m : Dict String Bool)
      → bool_at r (insert k v m) ≡ (if k == r then v else bool_at r m)
  unfolding bool_at
  bool-insert v m = rw lookup-insert (ground arith)

pub slice-drop :
    (o : Option String) (r : String) (m : Dict String (List String))
    → slice_at r (drop_oldest o m) ≡ (if fell_out o r then [] else slice_at r m)
unfolding slice_at drop_oldest
slice-drop none r m = refl
slice-drop (some k) r m = rw lookup-erase (ground arith)

pub bool-drop :
    (o : Option String) (r : String) (m : Dict String Bool)
    → bool_at r (drop_oldest o m) ≡ (if fell_out o r then false else bool_at r m)
unfolding bool_at drop_oldest
bool-drop none r m = refl
bool-drop (some k) r m = rw lookup-erase (ground arith)

pub slice_missing :
    (r : String) (m : Dict String (List String)) → is_some (lookup r m) ≡ false → slice_at r m ≡ []
unfolding slice_at
slice_missing r m h = ground arith

module _ (a : AttestIndex) (root hash : String) (v : Attest-Inv a) where
  module _ (old : is_some (lookup root a.hashes) ≡ true) where
    full-Inv :
        leb a.max_per_root (length (slice_at root a.hashes)) ≡ true
        → Attest-Inv (record a { truncated = insert root true a.truncated })
    full-Inv full = record {
      tracks = v.tracks;
      room = v.room;
      room_per_root = v.room_per_root;
      few = v.few;
      once = v.once;
      marked =
          λ r. rw bool-insert (ground (arith, v.marked r, v.few r, v.few root, str_eq_iff root r));
    }

    spare-Inv :
        contains (slice_at root a.hashes) hash ≡ false
        → leb a.max_per_root (length (slice_at root a.hashes)) ≡ false
        → Attest-Inv
            (record a { hashes = insert root (slice_at root a.hashes ++ hash ∷ []) a.hashes })
    spare-Inv fresh spare = record {
      tracks =
          insert-Tracks a.max a.order a.hashes v.tracks root _ (sym (v.tracks.keys root) ∙ old);
      room = v.room;
      room_per_root = v.room_per_root;
      few = λ r.
          rw slice-insert
            (ground (arith, v.few r, length-append (slice_at root a.hashes) (hash ∷ [])));
      once = λ r. rw slice-insert (
          either Distinct (root == r)
            (Distinct-snoc (slice_at root a.hashes) hash (v.once root) fresh) (v.once r));
      marked = λ r. rw slice-insert (ground (arith, v.marked r, v.marked root, str_eq_iff root r));
    }

    add_more-Inv : Attest-Inv (add_more a root hash)
    add_more-Inv = elim (Bool-cases (contains (slice_at root a.hashes) hash)) [
      | inl dup ↦ rw dup v
      | inr fresh ↦ elim (Bool-cases (leb a.max_per_root (length (slice_at root a.hashes)))) [
        | inl full ↦ rw (fresh, full) (full-Inv full)
        | inr spare ↦ rw (fresh, spare) (spare-Inv fresh spare)
      ]
    ]

  module _ (new : is_some (lookup root a.hashes) ≡ false) where
    add_first-Inv : Attest-Inv (add_first a root hash)
    add_first-Inv = record {
      tracks =
          push-Tracks a.max a.order a.hashes v.tracks root (hash ∷ []) v.room
            (sym (v.tracks.keys root) ∙ new);
      room = v.room;
      room_per_root = v.room_per_root;
      few = λ r. rw (slice-insert, slice-drop) (ground (arith, v.few r, v.room_per_root));
      once = λ r.
          rw (slice-insert, slice-drop)
            (either Distinct (root == r) (refl, tt)
              (either Distinct (fell_out (push a.max a.order root).1 r) tt (v.once r)));
      marked = λ r.
          rw (slice-insert, slice-drop, bool-drop)
            (ground (
              arith,
              v.marked r,
              v.marked root,
              slice_missing root a.hashes new,
              v.room_per_root,
              str_eq_iff root r,
            ));
    }

-- Recording an attestation keeps the index bounded twice over: at most max chains, at most
-- max_per_root attestations of a chain, none twice, and a chain marked as truncated only if it holds
-- that many.
pub attest_add-Inv :
    (a : AttestIndex) (root hash : String) → Attest-Inv a → Attest-Inv (attest_add a root hash)
attest_add-Inv a root hash v = rw (add_cases a root hash v.room_per_root) (
    either Attest-Inv ((root == "") || (hash == "")) v
      (elim (Bool-cases (is_some (lookup root a.hashes))) [
        | inl old ↦ rw old (add_more-Inv a root hash v old)
        | inr new ↦ rw new (add_first-Inv a root hash v new)
      ]))
