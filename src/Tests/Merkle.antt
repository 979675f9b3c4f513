-- ===== src/Tests/Merkle.antt =====
-- Merkle trees over a toy hash.
use m_signa.Prelude.{
  ℕ, ◌+◌, ◌%◌, ◌*◌, ◌≡◌, ◌≢◌, refl, List, [], ◌∷◌, true, false, reverse, All, arith, length,
}
use m_signa.Bytes.{Bytes}
use m_signa.Result.{ok, err}
use m_signa.MerkleTree.{tree_depth, get_root, tree_root}
use m_signa.MerkleTree.Root.{get_root-tree_root}
use m_signa.PartialMerkleTree.{
  invalid_root, PartialMerkleTree, MerkleLeaf, set_compressed, set_uncompressed, get_flags, merge,
}
use m_signa.PartialMerkleTree.Commit.{Commits, set_compressed-Commits}
use m_signa.PartialMerkleTree.RoundTrip.{matches, hashes_of}
use m_signa.PartialMerkleTree.Merge.{merge-set_uncompressed}
use m_signa.PartialMerkleTree.Merge.Marks.{Mark, firsts, seconds, eithers}
use m_signa.PartialMerkleTree.Serial.{set_uncompressed-root, set_compressed-set_uncompressed}

-- One byte, which depends on the order of the bytes hashed.
abbrev weigh : Bytes → ℕ
weigh [] = 7
weigh (b ∷ bs) = b * 3 + weigh bs * 5 + 1

abbrev toy_hash : Bytes → Bytes
toy_hash bs = weigh bs % 256 ∷ []

abbrev three_leaves : List MerkleLeaf
three_leaves = (1 ∷ [], false) ∷ (2 ∷ [], true) ∷ (3 ∷ [], false) ∷ []

-- The partial tree over the three leaves, of which the second matches.
abbrev three_tree : PartialMerkleTree
three_tree = record {
  n_txs = 3;
  tree = record {
    depth = 2;
    merkle_hashes = (1 ∷ []) ∷ (2 ∷ []) ∷ (235 ∷ []) ∷ [];
    tx_hashes = (2 ∷ []) ∷ [];
    bits = true ∷ true ∷ false ∷ true ∷ false ∷ [];
    root = 252 ∷ [];
  };
  tx_indices = 1 ∷ [];
}

three_built : set_uncompressed toy_hash three_leaves ≡ ok three_tree
unfolding set_uncompressed tree_depth
three_built = refl

three_root : get_root toy_hash (hashes_of three_leaves) ≡ 252 ∷ []
unfolding get_root
three_root = refl

three_flags : get_flags three_tree.tree.bits ≡ 11 ∷ []
unfolding get_flags
three_flags = refl

three_parsed :
    set_compressed toy_hash 3 three_tree.tree.merkle_hashes (11 ∷ []) (252 ∷ []) ≡ ok three_tree
unfolding set_compressed tree_depth
three_parsed = refl

-- With the hashes of the right part missing, the root comes out wrong.
cut_refused : set_compressed toy_hash 3 ((1 ∷ []) ∷ []) (11 ∷ []) (252 ∷ []) ≡ err invalid_root
unfolding set_compressed tree_depth
cut_refused = refl

-- The tree in which the third leaf matches, and both merged.
abbrev other_tree : PartialMerkleTree
other_tree = record {
  n_txs = 3;
  tree = record {
    depth = 2;
    merkle_hashes = (214 ∷ []) ∷ (3 ∷ []) ∷ [];
    tx_hashes = (3 ∷ []) ∷ [];
    bits = true ∷ false ∷ true ∷ true ∷ [];
    root = 252 ∷ [];
  };
  tx_indices = 1 ∷ [];
}

abbrev merged_tree : PartialMerkleTree
merged_tree = record {
  n_txs = 3;
  tree = record {
    depth = 2;
    merkle_hashes = (1 ∷ []) ∷ (2 ∷ []) ∷ (3 ∷ []) ∷ [];
    tx_hashes = (2 ∷ []) ∷ (3 ∷ []) ∷ [];
    bits = true ∷ true ∷ false ∷ true ∷ true ∷ true ∷ [];
    root = 252 ∷ [];
  };
  tx_indices = 1 ∷ 2 ∷ [];
}

trees_merged : merge toy_hash three_tree other_tree ≡ ok merged_tree
unfolding merge
trees_merged = refl

get_root-tree_root_example :
    get_root toy_hash (hashes_of three_leaves)
    ≡ tree_root toy_hash (tree_depth (length (hashes_of three_leaves))) (hashes_of three_leaves)
get_root-tree_root_example = get_root-tree_root toy_hash (hashes_of three_leaves) (omega arith)

set_uncompressed-root_example :
    (p : PartialMerkleTree) × (set_uncompressed toy_hash three_leaves ≡ ok p)
    × (p.n_txs ≡ 3)
    × (p.tree.root ≡ get_root toy_hash (hashes_of three_leaves))
    × (p.tree.tx_hashes ≡ matches three_leaves)
set_uncompressed-root_example = set_uncompressed-root toy_hash three_leaves (omega arith)

set_compressed-set_uncompressed_example :
    set_compressed toy_hash 3 three_tree.tree.merkle_hashes
      (get_flags three_tree.tree.bits)
      (252 ∷ [])
    ≡ ok three_tree
set_compressed-set_uncompressed_example =
    set_compressed-set_uncompressed toy_hash three_leaves three_tree three_built

some_root : ◌≢◌ {A = Bytes} (252 ∷ []) []
some_root e = cc

set_compressed-Commits_example :
    (◌≢◌ {A = ℕ} 3 0) × All (Commits toy_hash (tree_depth 3) (reverse (252 ∷ []))) ((2 ∷ []) ∷ [])
set_compressed-Commits_example =
    set_compressed-Commits toy_hash 3 three_tree.tree.merkle_hashes (11 ∷ []) (252 ∷ []) three_tree
      some_root three_parsed

abbrev marks : List Mark
marks = (1 ∷ [], false, false) ∷ (2 ∷ [], true, false) ∷ (3 ∷ [], false, true) ∷ []

merge-set_uncompressed_example :
    (p : PartialMerkleTree) × (q : PartialMerkleTree) × (r : PartialMerkleTree) × (set_uncompressed
        toy_hash
        (firsts marks)
      ≡ ok p)
    × (set_uncompressed toy_hash (seconds marks) ≡ ok q)
    × (set_uncompressed toy_hash (eithers marks) ≡ ok r)
    × (merge toy_hash p q ≡ ok r)
merge-set_uncompressed_example = merge-set_uncompressed toy_hash marks (omega arith)
