-- ===== src/Executor/Causal/Bounds.antt =====
-- The indexes of causal.go stay within their bounds, and their orders list exactly their keys.
use deepaxiom_aura.Base.{
  ◌<◌, sym, ◌∙◌, String, ◌||◌, [], ◌==◌, string_eq, is_some, lookup, insert, Bool-cases,
  Option-cases, inl, inr,
}
use deepaxiom_aura.Fifo.{
  Tracks, push-Tracks, push_last-Tracks, insert-Tracks, adjust-Tracks, remove-Tracks,
}
use deepaxiom_aura.Executor.Causal.{
  CausalIndex, set, InFlightIndex, Hop, hop_key, admit_root, record_hop, take, CancelledSet, add,
}

pub record Causal-Inv (c : CausalIndex) : Type 0 where
  pub tracks : Tracks c.max c.order c.root
  pub room : 0 < c.max

-- set keeps the causal index within its bound, its order listing exactly its keys.
pub set-Inv : (c : CausalIndex) (id root : String) → Causal-Inv c → Causal-Inv (set c id root)
unfolding set
set-Inv c id root v = elim (Bool-cases ((id == "") || (root == ""))) [
  | inl void ↦ rw void v
  | inr named ↦ elim (Bool-cases (is_some (lookup id c.root))) [
    | inl old ↦
        rw (named, old)
          (record {
            tracks =
                insert-Tracks c.max c.order c.root v.tracks id root (sym (v.tracks.keys id) ∙ old);
            room = v.room;
          })
    | inr new ↦
        rw (named, new)
          (record {
            tracks =
                push-Tracks c.max c.order c.root v.tracks id root v.room
                  (sym (v.tracks.keys id) ∙ new);
            room = v.room;
          })
  ]
]

pub record InFlight-Inv (f : InFlightIndex) : Type 0 where
  pub tracks : Tracks f.max f.order f.by_root
  pub room : 0 < f.max

admit_root-Inv :
    (f : InFlightIndex) (root : String) → InFlight-Inv f → InFlight-Inv (admit_root f root)
unfolding admit_root
admit_root-Inv f root v = elim (Bool-cases (is_some (lookup root f.by_root))) [
  | inl old ↦ rw old v
  | inr new ↦ rw new (record {
    tracks =
        push_last-Tracks f.max f.order f.by_root v.tracks root [] v.room
          (sym (v.tracks.keys root) ∙ new);
    room = v.room;
  })
]

-- record_hop keeps the index of deliveries in flight within its bound, its order listing exactly its
-- roots.
pub record_hop-Inv :
    (f : InFlightIndex) (root : String) (h : Hop)
    → InFlight-Inv f
    → InFlight-Inv (record_hop f root h)
unfolding record_hop
record_hop-Inv f root h v = elim (Bool-cases (root == "")) [
  | inl void ↦ rw void v
  | inr named ↦ elim (Option-cases h.to.skill) [
    | inl client ↦ rw (named, client, record_hop) v
    | inr (live, skill) ↦
        rw (named, skill, record_hop)
          (record {
            tracks =
                adjust-Tracks (admit_root f root).max (admit_root f root).order
                  (admit_root f root).by_root (admit_root-Inv f root v).tracks root
                  (insert (hop_key h) h);
            room = (admit_root-Inv f root v).room;
          })
  ]
]

-- take keeps the index of deliveries in flight within its bound, its order listing exactly its
-- roots.
pub take-Inv : (f : InFlightIndex) (root : String) → InFlight-Inv f → InFlight-Inv (take f root).0
unfolding take
take-Inv f root v = elim (Option-cases (lookup root f.by_root)) [
  | inl missing ↦ rw (missing, take) v
  | inr (dests, found) ↦
      rw (found, take)
        (record { tracks = remove-Tracks f.max f.order f.by_root v.tracks root; room = v.room })
]

pub record Cancelled-Inv (c : CancelledSet) : Type 0 where
  pub tracks : Tracks c.max c.order c.seen
  pub room : 0 < c.max

-- add keeps the set of abandoned roots within its bound, its order listing exactly the roots.
pub add-Inv : (c : CancelledSet) (root : String) → Cancelled-Inv c → Cancelled-Inv (add c root)
unfolding add
add-Inv c root v = elim (Bool-cases (root == "")) [
  | inl void ↦ rw void v
  | inr named ↦ elim (Bool-cases (is_some (lookup root c.seen))) [
    | inl old ↦ rw (named, old) v
    | inr new ↦
        rw (named, new)
          (record {
            tracks =
                push_last-Tracks c.max c.order c.seen v.tracks root tt v.room
                  (sym (v.tracks.keys root) ∙ new);
            room = v.room;
          })
  ]
]
