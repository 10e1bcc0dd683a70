-- ===== src/Ledger/Merkle/Inclusion.antt =====
-- Inclusion proofs of merkle.go: what the verifier rebuilds, in RFC 6962's words.
pub mod Walks
pub mod Paths
pub mod Accept
pub mod Sound
pub mod Rebuild
use deepaxiom_aura.Base.{ℕ, ◌-◌, ◌*◌, ◌<◌, ◌≤◌, ◌≡◌, List, [], ◌∷◌, ◌++◌, pow2}

-- The audit path rebuilds this head from the leaf at an index of a tree of n leaves: a leaf is its own
-- head; otherwise the last hash of the path is the head of the other side of the split.
pub data Audit {Hash : Type 0} (interior : Hash → Hash → Hash) (leaf : Hash)
    : ℕ → ℕ → List Hash → Hash → Type 0 where
  one : {n i : ℕ} → n ≡ 1 → i ≡ 0 → Audit interior leaf n i [] leaf
  left :
      {n i : ℕ} {path whole : List Hash} {head : Hash} (m : ℕ) (sibling : Hash)
      → pow2 m < n
      → n ≤ 2 * pow2 m
      → i < pow2 m
      → whole ≡ path ++ sibling ∷ []
      → Audit interior leaf (pow2 m) i path head
      → Audit interior leaf n i whole (interior head sibling)
  right :
      {n i : ℕ} {path whole : List Hash} {head : Hash} (m : ℕ) (sibling : Hash)
      → pow2 m < n
      → n ≤ 2 * pow2 m
      → pow2 m ≤ i
      → i < n
      → whole ≡ path ++ sibling ∷ []
      → Audit interior leaf (n - pow2 m) (i - pow2 m) path head
      → Audit interior leaf n i whole (interior sibling head)
