-- ===== src/Ledger/Merkle.antt =====
-- The Merkle tree head over the ledger, as in RFC 6962 (kernel/internal/ledger/merkle.go). SHA-256
-- is a parameter: `interior` is interiorHash, and `empty_root` is EmptyRoot().
pub mod Split
pub mod Root
pub mod Compact
pub mod Inclusion
mod Tests
use deepaxiom_aura.Base.{
  ℕ, zero, suc, ◌+◌, ◌-◌, ◌*◌, ◌/◌, ◌<◌, Bool, true, false, not, ◌&&◌, ◌||◌, Option, none, some,
  List, [], ◌∷◌, ◌++◌, if◌then◌else◌, ltb, leb, nat_beq, odd, length, take, drop, Eq, ◌==◌,
}

-- `for k<<1 < n { k <<= 1 }`
unfoldable pub double_below : ℕ → ℕ → ℕ → ℕ
double_below zero n k = k
double_below (suc fuel) n k =
    let next = double_below fuel n (2 * k) in if ltb (2 * k) n then next else k

-- The rounds are fewer than n.
unfoldable pub largest_power_of_two_below : ℕ → ℕ
largest_power_of_two_below n = double_below n n 1

-- The inner loop of the verifiers: `for fn != 0 && fn&1 == 0 { fn >>= 1; sn >>= 1 }`. Fewer than fn rounds.
unfoldable pub strip : ℕ → ℕ → ℕ → ℕ × ℕ
strip zero fn sn = (fn, sn)
strip (suc fuel) fn sn =
    let next = strip fuel (fn / 2) (sn / 2) in
    if not (nat_beq fn 0) && not (odd fn) then next else (fn, sn)

-- The variables of the verifier's loop.
pub record Walk (Hash : Type 0) : Type 0 where
  pub fn : ℕ
  pub sn : ℕ
  pub computed : Hash

-- CompactTree: `nodes` lists the levels, lowest first.
pub record CompactTree (Hash : Type 0) : Type 0 where
  pub size : ℕ
  pub nodes : List Hash

abbrev pub new_tree : {Hash : Type 0} → CompactTree Hash
new_tree = record { size = 0; nodes = [] }

module _ {Hash : Type 0} (interior : Hash → Hash → Hash) (empty_root : Hash) where
  -- Each split is shorter, so the number of leaves is fuel enough.
  unfoldable pub root_fuel : ℕ → List Hash → Hash
  root_fuel fuel [] = empty_root
  root_fuel fuel (x ∷ []) = x
  root_fuel zero (x ∷ y ∷ rest) = empty_root
  root_fuel (suc fuel) (x ∷ y ∷ rest) =
      let leaves = x ∷ y ∷ rest in
      let k = largest_power_of_two_below (length leaves) in
      interior (root_fuel fuel (take k leaves)) (root_fuel fuel (drop k leaves))

  unfoldable pub merkle_root : List Hash → Hash
  merkle_root leaves = root_fuel (length leaves) leaves

  unfoldable pub path_fuel : ℕ → List Hash → ℕ → List Hash
  path_fuel zero leaves index = []
  path_fuel (suc fuel) leaves index =
      let n = length leaves in
      let k = largest_power_of_two_below n in
      let left = path_fuel fuel (take k leaves) index ++ merkle_root (drop k leaves) ∷ [] in
      let right = path_fuel fuel (drop k leaves) (index - k) ++ merkle_root (take k leaves) ∷ [] in
      if nat_beq n 1 then [] else if ltb index k then left else right

  unfoldable pub inclusion_path : List Hash → ℕ → List Hash
  inclusion_path leaves index = path_fuel (length leaves) leaves index

  -- `none` is the error of an index out of range; a negative index is no number here.
  unfoldable pub inclusion_proof : List Hash → ℕ → Option (List Hash)
  inclusion_proof leaves index =
      if leb (length leaves) index then none else some (inclusion_path leaves index)

  -- One round; `none` is the rejection of a proof that is too long.
  unfoldable pub absorb : Walk Hash → Hash → Option (Walk Hash)
  absorb w sibling =
      if nat_beq w.sn 0
      then none
      else if odd w.fn || nat_beq w.fn w.sn
      then (let (f, s) = strip w.fn w.fn w.sn in
          some (record { fn = f / 2; sn = s / 2; computed = interior sibling w.computed }))
      else some (record { fn = w.fn / 2; sn = w.sn / 2; computed = interior w.computed sibling })

  unfoldable pub absorb_all : Walk Hash → List Hash → Option (Walk Hash)
  absorb_all w [] = some w
  absorb_all w (sibling ∷ rest) = elim (absorb w sibling) [
    | none ↦ none
    | some w' ↦ absorb_all w' rest
  ]

  module _ ⦃e : Eq Hash⦄ where
    abbrev pub arrived : Option (Walk Hash) → Hash → Bool
    arrived none root = false
    arrived (some w) root = nat_beq w.sn 0 && (w.computed == root)

    unfoldable pub verify_inclusion : Hash → ℕ → ℕ → List Hash → Hash → Bool
    verify_inclusion leaf index tree_size proof root =
        if leb tree_size index
        then false
        else arrived (absorb_all (record { fn = index; sn = tree_size - 1; computed = leaf }) proof)
            root

  -- The carry of `Append` from one level up; `size` is shifted with the level. `none` is the panic of a
  -- level that the tree should have and has not.
  unfoldable pub carry_up : ℕ → Hash → List Hash → Option (List Hash)
  carry_up size carry [] = if odd size then none else some (carry ∷ [])
  carry_up size carry (x ∷ xs) =
      let above = carry_up (size / 2) (interior x carry) xs in
      if odd size then elim above [ none ↦ none | some ys ↦ some (x ∷ ys) ] else some (carry ∷ xs)

  unfoldable pub append_leaf : CompactTree Hash → Hash → Option (CompactTree Hash)
  append_leaf t leaf = elim (carry_up t.size leaf t.nodes) [
    | none ↦ none
    | some nodes' ↦ some (record { size = t.size + 1; nodes = nodes' })
  ]

  -- The fold of `Root`, lowest level first: `none` is `have == false`.
  abbrev join : Option Hash → Hash → Hash
  join none node = node
  join (some root) node = interior node root

  unfoldable pub fold_levels : ℕ → List Hash → Option Hash → Option Hash
  fold_levels size [] acc = acc
  fold_levels size (x ∷ xs) acc =
      fold_levels (size / 2) xs (if odd size then some (join acc x) else acc)

  abbrev pub or_else : Option Hash → Hash → Hash
  or_else none d = d
  or_else (some h) d = h

  -- A tree with leaves always has a root.
  unfoldable pub tree_root : CompactTree Hash → Hash
  tree_root t =
      if nat_beq t.size 0 then empty_root else or_else (fold_levels t.size t.nodes none) empty_root
