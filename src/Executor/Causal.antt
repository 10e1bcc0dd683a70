-- ===== src/Executor/Causal.antt =====
-- The bookkeeping that makes a cancel reach a whole causal chain (kernel/internal/executor/causal.go):
-- four indexes, each bounded and evicting oldest-first. A mutex makes each call one step.
pub mod Bounds
pub mod Attest
pub mod Silence
pub mod Reads
use deepaxiom_aura.Base.{
  ℕ, String, Bool, true, false, ◌||◌, Option, none, some, List, [], ◌∷◌, ◌++◌, map, ◌==◌, string_eq,
  ltb, leb, ◌+++◌, if◌then◌else◌, length, contains, remove_first, Dict, is_some, lookup, insert,
  erase,
}
use deepaxiom_aura.Fifo.{push, drop_oldest, adjust}
use deepaxiom_aura.Executor.Types.{Dest}

abbrev pub max_causal_roots : ℕ
max_causal_roots = 8192

abbrev pub max_in_flight_root : ℕ
max_in_flight_root = 1024

abbrev pub max_cancelled : ℕ
max_cancelled = 1024

abbrev pub max_attest_roots : ℕ
max_attest_roots = 1024

abbrev pub max_attest_per_root : ℕ
max_attest_per_root = 16

-- causalIndex: an envelope's id to the root of its chain.
pub record CausalIndex : Type 0 where
  pub root : Dict String String
  pub order : List String
  pub max : ℕ

abbrev pub new_causal : ℕ → CausalIndex
new_causal max = record { root = []; order = []; max = max }

unfoldable pub set : CausalIndex → String → String → CausalIndex
set c envelope_id root =
    if (envelope_id == "") || (root == "")
    then c
    else if is_some (lookup envelope_id c.root)
    then record c { root = insert envelope_id root c.root }
    else let (order', oldest) = push c.max c.order envelope_id in
      record c { root = insert envelope_id root (drop_oldest oldest c.root); order = order' }

unfoldable pub get : CausalIndex → String → Option String
get c envelope_id = if envelope_id == "" then none else lookup envelope_id c.root

-- hop: a destination that was delivered to, and the cause that it will recognise.
pub record Hop : Type 0 where
  pub to : Dest
  pub cause_id : String

-- inFlightIndex: per root, the latest delivery to each destination.
pub record InFlightIndex : Type 0 where
  pub by_root : Dict String (Dict String Hop)
  pub order : List String
  pub max : ℕ

abbrev pub new_in_flight : ℕ → InFlightIndex
new_in_flight max = record { by_root = []; order = []; max = max }

-- h.to.ref + "." + h.to.port
unfoldable pub hop_key : Hop → String
hop_key h = h.to.ref +++ "." +++ h.to.port

-- A root that the index does not have yet.
unfoldable pub admit_root : InFlightIndex → String → InFlightIndex
admit_root f root =
    if is_some (lookup root f.by_root)
    then f
    else let (order', oldest) = push f.max f.order root in
      record f { by_root = drop_oldest oldest (insert root [] f.by_root); order = order' }

-- A hop without a skill leads to the client, whom nobody asks to stop. The write of `dests` goes
-- through the map that `by_root` holds.
unfoldable pub record_hop : InFlightIndex → String → Hop → InFlightIndex
record_hop f root h = if root == "" then f else elim h.to.skill [
  | none ↦ f
  | some _ ↦
      let f' = admit_root f root in
      record f' { by_root = adjust root (insert (hop_key h) h) f'.by_root }
]

-- The hops of a root, which the index forgets.
unfoldable pub take : InFlightIndex → String → InFlightIndex × List Hop
take f root = elim (lookup root f.by_root) [
  | none ↦ (f, [])
  | some dests ↦ (
    record f { by_root = erase root f.by_root; order = remove_first f.order root },
    map (λ (entry : String × Hop). entry.1) dests,
  )
]

-- attestIndex: the attestations of a chain.
pub record AttestIndex : Type 0 where
  pub hashes : Dict String (List String)
  pub truncated : Dict String Bool
  pub order : List String
  pub max : ℕ
  pub max_per_root : ℕ

abbrev pub new_attest : ℕ → ℕ → AttestIndex
new_attest max max_per_root = record {
  hashes = [];
  truncated = [];
  order = [];
  max = max;
  max_per_root = max_per_root;
}

-- m[k] of a map to slices: a missing key reads as an empty slice.
abbrev pub or_empty : Option (List String) → List String
or_empty none = []
or_empty (some hs) = hs

unfoldable pub slice_at : String → Dict String (List String) → List String
slice_at k m = or_empty (lookup k m)

abbrev pub or_false : Option Bool → Bool
or_false none = false
or_false (some b) = b

unfoldable pub bool_at : String → Dict String Bool → Bool
bool_at k m = or_false (lookup k m)

-- A root that is not tracked joins the order, and the oldest leaves both maps.
unfoldable pub track_root : AttestIndex → String → AttestIndex
track_root a root =
    if is_some (lookup root a.hashes)
    then a
    else let (order', oldest) = push a.max a.order root in
      record a {
        hashes = drop_oldest oldest a.hashes;
        truncated = drop_oldest oldest a.truncated;
        order = order';
      }

unfoldable pub attest_add : AttestIndex → String → String → AttestIndex
attest_add a root hash =
    if (root == "") || (hash == "")
    then a
    else let existing = slice_at root a.hashes in
      let a' = track_root a root in
      if contains existing hash
      then a'
      else if leb a.max_per_root (length existing)
      then record a' { truncated = insert root true a'.truncated }
      else record a' { hashes = insert root (existing ++ hash ∷ []) a'.hashes }

unfoldable pub attest_get : AttestIndex → String → List String × Bool
attest_get a root =
    if root == "" then ([], false) else (slice_at root a.hashes, bool_at root a.truncated)

-- cancelledSet: the roots that the client has abandoned.
pub record CancelledSet : Type 0 where
  pub seen : Dict String (Unit {0})
  pub order : List String
  pub max : ℕ

abbrev pub new_cancelled : ℕ → CancelledSet
new_cancelled max = record { seen = []; order = []; max = max }

unfoldable pub add : CancelledSet → String → CancelledSet
add c root =
    if root == ""
    then c
    else if is_some (lookup root c.seen)
    then c
    else let (order', oldest) = push c.max c.order root in
      record c { seen = drop_oldest oldest (insert root tt c.seen); order = order' }

unfoldable pub has : CancelledSet → String → Bool
has c root = if root == "" then false else is_some (lookup root c.seen)
