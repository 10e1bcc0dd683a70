-- ===== src/Channel/Dedup.antt =====
-- The bounded at-least-once deduplicator (`Dedup` of kernel/internal/channel/envelope.go).
use deepaxiom_aura.Base.{
  ℕ, ◌+◌, ◌<◌, ◌≡◌, ◌≢◌, refl, sym, ◌∙◌, String, Bool, true, false, List, [], ◌∷◌, arith, ◌==◌,
  string_eq, if◌then◌else◌, length, Dict, is_some, lookup, insert, str_eq_iff, Bool-cases, inl, inr,
  beq_ne,
}
use deepaxiom_aura.Fifo.{
  push, drop_oldest, Tracks, Tracks-empty, push_last-Tracks, IsRecent, IsRecent-new, IsRecent-push,
  IsRecent-contains,
}

-- `map[string]struct{}` holds no values.
pub record Dedup : Type 0 where
  pub seen : Dict String (Unit {0})
  pub order : List String
  pub max : ℕ

unfoldable pub new_dedup : ℕ → Dedup
new_dedup max = record { seen = []; order = []; max = max }

-- The insertion of a new key.
unfoldable pub remember : Dedup → String → Dedup
remember d key =
    let (order', oldest) = push d.max d.order key in
    record d { seen = drop_oldest oldest (insert key tt d.seen); order = order' }

-- Records the key, and reports whether it was there.
unfoldable pub seen : Dedup → String → Dedup × Bool
seen d key =
    if key == ""
    then (d, false)
    else if is_some (lookup key d.seen)
    then (d, true)
    else (remember d key, false)

-- A run of calls.
unfoldable pub see_all : Dedup → List String → Dedup
see_all d [] = d
see_all d (k ∷ ks) = see_all (seen d k).0 ks

pub record Inv (d : Dedup) : Type 0 where
  pub tracks : Tracks d.max d.order d.seen
  pub room : 0 < d.max

pub new-Inv : (max : ℕ) → 0 < max → Inv (new_dedup max)
unfolding new_dedup
new-Inv max room = record { tracks = Tracks-empty max; room = room }

remember-Inv :
    (d : Dedup) (key : String) → Inv d → is_some (lookup key d.seen) ≡ false → Inv (remember d key)
unfolding remember
remember-Inv d key v new = record {
  tracks =
      push_last-Tracks d.max d.order d.seen v.tracks key tt v.room (sym (v.tracks.keys key) ∙ new);
  room = v.room;
}

pub seen-Inv : (d : Dedup) (key : String) → Inv d → Inv (seen d key).0
unfolding seen
seen-Inv d key v = elim (Bool-cases (key == "")) [
  | inl empty ↦ rw empty v
  | inr some_key ↦ elim (Bool-cases (is_some (lookup key d.seen))) [
    | inl old ↦ rw (some_key, old) v
    | inr new ↦ rw (some_key, new) (remember-Inv d key v new)
  ]
]

-- However long the run of calls, the table keeps at most max keys, and its order lists exactly
-- those.
pub see_all-Inv : (d : Dedup) (ks : List String) → Inv d → Inv (see_all d ks)
unfolding see_all
see_all-Inv d [] v = v
see_all-Inv d (k ∷ ks) v = see_all-Inv (seen d k).0 ks (seen-Inv d k v)

-- A key that has been seen and is among the last `max`.
record Remembers (d : Dedup) (key : String) (age : ℕ) : Type 0 where
  inv : Inv d
  recent : IsRecent key age d.order

seen-Remembers :
    (d : Dedup) (key other : String) (age : ℕ)
    → age + 1 < d.max
    → Remembers d key age
    → (IsRecent key (age + 1) (seen d other).0.order) × ((seen d other).0.max ≡ d.max)
unfolding seen remember push
seen-Remembers d key other age h r = elim (Bool-cases (other == "")) [
  | inl empty ↦ rw empty (older, refl)
  | inr some_key ↦ elim (Bool-cases (is_some (lookup other d.seen))) [
    | inl old ↦ rw (some_key, old) (older, refl)
    | inr new ↦ rw (some_key, new) (IsRecent-push d.max age key other d.order h r.recent, refl)
  ]
]
  where
    older : IsRecent key (age + 1) d.order
    older = record {
      older = r.recent.older;
      younger = r.recent.younger;
      split = r.recent.split;
      few = omega (arith, r.recent.few);
    }

see_all-Remembers :
    (d : Dedup) (key : String) (age : ℕ) (ks : List String)
    → age + length ks < d.max
    → Remembers d key age
    → is_some (lookup key (see_all d ks).seen) ≡ true
unfolding see_all
see_all-Remembers d key age [] h r =
    r.inv.tracks.keys key ∙ IsRecent-contains key age d.order r.recent
see_all-Remembers d key age (k ∷ ks) h r =
    let (recent, same) = seen-Remembers d key k age (omega arith) r in
    see_all-Remembers (seen d k).0 key (age + 1) ks (rw same (omega arith))
      (record { inv = seen-Inv d k r.inv; recent = recent })

seen_twice :
    (d : Dedup) (key : String)
    → is_some (lookup key d.seen) ≡ true
    → key ≢ ""
    → (seen d key).1 ≡ true
unfolding seen
seen_twice d key h n = rw (beq_ne key "" n, h) refl

first-Remembers :
    (d : Dedup) (key : String)
    → Inv d
    → key ≢ ""
    → is_some (lookup key d.seen) ≡ false
    → Remembers (seen d key).0 key 0
unfolding seen remember push
first-Remembers d key v n new =
    rw (beq_ne key "" n, new)
      (record { inv = remember-Inv d key v new; recent = IsRecent-new d.max key d.order v.room })

-- A first sighting means that the table did not have the key, and leaves the bound alone.
seen_first :
    (d : Dedup) (key : String)
    → key ≢ ""
    → (seen d key).1 ≡ false
    → (is_some (lookup key d.seen) ≡ false) × ((seen d key).0.max ≡ d.max)
unfolding seen remember push
seen_first d key n h = ground (arith, str_eq_iff key "")

-- After a non-empty key is seen for the first time, and then fewer than max other calls, whatever
-- their keys, the key is reported as a duplicate.
pub duplicate_in_window :
    (d : Dedup) (key : String) (ks : List String)
    → Inv d
    → key ≢ ""
    → (seen d key).1 ≡ false
    → length ks < d.max
    → (seen (see_all (seen d key).0 ks) key).1 ≡ true
duplicate_in_window d key ks v n first few =
    let (new, same) = seen_first d key n first in
    seen_twice (see_all (seen d key).0 ks) key
      (see_all-Remembers (seen d key).0 key 0 ks (rw same (omega arith))
        (first-Remembers d key v n new))
      n
