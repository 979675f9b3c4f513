-- ===== src/MerkleTree.antt =====
-- class MerkleTree of deps/CoinCore/src/MerkleTree.cpp, and the depth computation that the
-- partial trees share. `sha256_2` (hash.h, over OpenSSL) is a parameter.
pub mod Levels
pub mod Root
use m_signa.Prelude.{
  ℕ, zero, suc, ◌+◌, ◌-◌, ◌/◌, ◌^◌, List, [], ◌∷◌, ◌++◌, ◌==◌, if◌then◌else◌, length, take, drop,
  reverse,
}
use m_signa.Bytes.{Bytes}

-- The right child of a node, or the left one again where the right part is empty.
abbrev pub or_left {ℓ} : {A : Type ℓ} → List A → Bytes → Bytes → Bytes
or_left [] left right = left
or_left (x ∷ xs) left right = right

module _ (sha256_2 : Bytes → Bytes) where
  -- One round of the loop of `getRoot`: the hashes of the next level.
  unfoldable pub pair_up : List Bytes → List Bytes
  pair_up [] = []
  pair_up (a ∷ []) = sha256_2 (a ++ a) ∷ []
  pair_up (a ∷ b ∷ rest) = sha256_2 (a ++ b) ∷ pair_up rest

  -- The recursion of `getRoot`, on fuel; each level has fewer hashes than the one below.
  unfoldable pub root_loop : ℕ → List Bytes → Bytes
  root_loop fuel [] = []
  root_loop fuel (h ∷ []) = h
  root_loop zero (a ∷ b ∷ rest) = []
  root_loop (suc fuel) (a ∷ b ∷ rest) = root_loop fuel (pair_up (a ∷ b ∷ rest))

  -- MerkleTree::getRoot
  unfoldable pub get_root : List Bytes → Bytes
  unfolding root_loop pair_up
  get_root hashes = root_loop (length hashes) hashes

  -- MerkleTree::getRootLittleEndian
  unfoldable pub get_root_little_endian : List Bytes → Bytes
  unfolding get_root
  get_root_little_endian hashes = reverse (get_root hashes)

  -- The root from the top down: the left part of a level is a full subtree, and it stands for
  -- both where there is no right part.
  unfoldable pub tree_root : ℕ → List Bytes → Bytes
  tree_root zero [] = []
  tree_root zero (h ∷ rest) = h
  tree_root (suc d) hs =
      let left = tree_root d (take (2 ^ d) hs) in
      let right = tree_root d (drop (2 ^ d) hs) in
      sha256_2 (left ++ or_left (drop (2 ^ d) hs) left right)

-- `while (n > 0) { depth++; n >>= 1; }`, on fuel.
depth_loop : ℕ → ℕ → ℕ → ℕ
depth_loop zero n depth = depth
depth_loop (suc fuel) n depth =
    let rest = depth_loop fuel (n / 2) (depth + 1) in if n == 0 then depth else rest

-- The depth of a tree over `n_txs` leaves.
unfoldable pub tree_depth : ℕ → ℕ
unfolding depth_loop
tree_depth n_txs = depth_loop (n_txs - 1) (n_txs - 1) 0
