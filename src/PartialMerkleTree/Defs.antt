-- ===== src/PartialMerkleTree/Defs.antt =====
-- The definitions of PartialMerkleTree.
use m_signa.Prelude.{
  ℕ, zero, suc, ◌+◌, ◌/◌, ◌%◌, ◌^◌, List, [], ◌∷◌, ◌++◌, Bool, true, false, ◌||◌, ◌==◌,
  if◌then◌else◌, length, take, drop, reverse,
}
use m_signa.Bytes.{Bytes, bytes_eq}
use m_signa.Result.{Result, ok, err, guard, ◌>>=◌, ◌>>◌}
use m_signa.MerkleTree.{tree_depth}
use Prim.Native.Nat.{bit_or}

-- What the class throws. `out_of_range` is no exception of the source: it is a read of an element
-- that is not there.
pub data Error : Type 0 where
  zero_transactions invalid_data invalid_root empty_leaves : Error
  n_txs_mismatch depth_mismatch root_mismatch leaf_mismatch node_mismatch : Error
  out_of_range : Error

-- The fields that the recursive functions set.
pub record Subtree : Type 0 where
  pub depth : ℕ
  pub merkle_hashes : List Bytes
  pub tx_hashes : List Bytes
  pub bits : List Bool
  pub root : Bytes

pub record PartialMerkleTree : Type 0 where
  pub n_txs : ℕ
  pub tree : Subtree
  pub tx_indices : List ℕ

-- A leaf is a hash, and whether it matches.
abbrev pub MerkleLeaf : Type 0
MerkleLeaf = Bytes × Bool

-- The hash queue and the bit queue of a serialised tree.
pub data Queues : Type 0 where
  queues : List Bytes → List Bool → Queues

abbrev pub matched : Bool → Bytes → List Bytes
matched bit h = if bit then h ∷ [] else []

-- A subtree of which one hash is stored.
abbrev pub one_hash : ℕ → Bool → Bytes → Subtree
one_hash depth bit h = record {
  depth = depth;
  merkle_hashes = h ∷ [];
  tx_hashes = matched bit h;
  bits = bit ∷ [];
  root = h;
}

-- `if (txHashes_.empty()) { ... } else { bits_.push_front(true); }`
abbrev pub close : Subtree → Subtree
close t = elim t.tx_hashes [
  | [] ↦ record t { merkle_hashes = t.root ∷ []; bits = false ∷ [] }
  | h ∷ hs ↦ record t { bits = true ∷ t.bits }
]

module _ (sha256_2 : Bytes → Bytes) where
  -- A node over a left and a right subtree, before its own bit is added.
  abbrev pub join : ℕ → Subtree → Subtree → Subtree
  join depth l r = record {
    depth = depth;
    merkle_hashes = l.merkle_hashes ++ r.merkle_hashes;
    tx_hashes = l.tx_hashes ++ r.tx_hashes;
    bits = l.bits ++ r.bits;
    root = sha256_2 (l.root ++ r.root);
  }

  -- A node without a right subtree: the left hash counts twice, the rest once.
  abbrev pub join_left : ℕ → Subtree → Subtree
  join_left depth l = record l { depth = depth; root = sha256_2 (l.root ++ l.root) }

  -- The same for `setUncompressed`: the right subtree exists if `begin + partitionPos < end`.
  abbrev pub right_leaves :
      (List MerkleLeaf → Result Error Subtree)
      → ℕ
      → Subtree
      → List MerkleLeaf
      → Result Error Subtree
  right_leaves build depth l [] = ok (join_left depth l)
  right_leaves build depth l (leaf ∷ rest) = do r ← build (leaf ∷ rest); ok (join depth l r)

  -- PartialMerkleTree::setUncompressed, the recursive one, on the leaves from `begin` to `end`.
  unfoldable pub set_uncompressed_at : ℕ → List MerkleLeaf → Result Error Subtree
  set_uncompressed_at zero [] = err out_of_range
  set_uncompressed_at zero ((h, bit) ∷ rest) = ok (one_hash zero bit h)
  set_uncompressed_at (suc d) leaves = do
    l ← set_uncompressed_at d (take (2 ^ d) leaves)
    t ← right_leaves (set_uncompressed_at d) (suc d) l (drop (2 ^ d) leaves)
    ok (close t)

  -- The right subtree, if a hash is left for it, and the node over both. `setCompressed` and `merge`
  -- have this code in common; `parse` is their call of `setCompressed`.
  abbrev pub right_part :
      (Queues → Result Error (Subtree × Queues))
      → ℕ
      → Subtree
      → Queues
      → Result Error (Subtree × Queues)
  right_part parse depth l (queues [] bits) = ok (join_left depth l, queues [] bits)
  right_part parse depth l (queues (h ∷ hs) bits) = do
    (r, q) ← parse (queues (h ∷ hs) bits)
    ok (join depth l r, q)

  abbrev pub children :
      (Queues → Result Error (Subtree × Queues)) → ℕ → Queues → Result Error (Subtree × Queues)
  children parse depth q = do (l, q') ← parse q; right_part parse depth l q'

  -- PartialMerkleTree::setCompressed, the recursive one.
  unfoldable pub set_compressed_at : ℕ → Queues → Result Error (Subtree × Queues)
  set_compressed_at depth (queues [] bits) = err invalid_data
  set_compressed_at depth (queues (h ∷ hs) []) = err invalid_data
  set_compressed_at zero (queues (h ∷ hs) (bit ∷ bits)) = ok (one_hash zero bit h, queues hs bits)
  set_compressed_at (suc d) (queues (h ∷ hs) (false ∷ bits)) =
      ok (one_hash (suc d) false h, queues hs bits)
  set_compressed_at (suc d) (queues (h ∷ hs) (true ∷ bits)) = do
    (t, q) ← children (set_compressed_at d) (suc d) (queues (h ∷ hs) bits)
    ok (record t { bits = true ∷ t.bits }, q)

-- `txHashesSet.count(hash)`
abbrev pub member : Bytes → List Bytes → Bool
member h [] = false
member h (g ∷ gs) = bytes_eq h g || member h gs

-- PartialMerkleTree::updateTxIndices, from index `i` on.
unfoldable pub indices_from : ℕ → List Bytes → List Bytes → List ℕ
indices_from i [] tx_hashes = []
indices_from i (h ∷ hs) tx_hashes =
    let rest = indices_from (i + 1) hs tx_hashes in if member h tx_hashes then i ∷ rest else rest

-- `(flag >> i) & 1` for i from 0 to 7.
abbrev pub flag_bit : ℕ → ℕ → Bool
flag_bit flag i = flag / 2 ^ i % 2 == 1

unfoldable pub unpack : List ℕ → List Bool
unpack [] = []
unpack (f ∷ flags) =
    flag_bit f 0
    ∷ (flag_bit f 1
        ∷ (flag_bit f 2
            ∷ (flag_bit f 3
                ∷ (flag_bit f 4
                    ∷ (flag_bit f 5 ∷ (flag_bit f 6 ∷ (flag_bit f 7 ∷ unpack flags)))))))

-- The loop of `getFlags`: the bits to come, `byteCounter` and `byte`.
unfoldable pub flags_loop : List Bool → ℕ → ℕ → List ℕ
flags_loop [] counter byte = byte ∷ []
flags_loop (bit ∷ bits) counter byte =
    let c = if counter == 8 then 0 else counter in
    let b = if counter == 8 then 0 else byte in
    let rest = flags_loop bits (c + 1) (if bit then bit_or b (2 ^ c) else b) in
    if counter == 8 then byte ∷ rest else rest

-- PartialMerkleTree::getFlags
unfoldable pub get_flags : List Bool → List ℕ
unfolding flags_loop
get_flags bits = flags_loop bits 0 0

module _ (sha256_2 : Bytes → Bytes) where
  -- PartialMerkleTree::setCompressed
  unfoldable pub set_compressed : ℕ → List Bytes → List ℕ → Bytes → Result Error PartialMerkleTree
  unfolding set_compressed_at indices_from unpack
  set_compressed n_txs hashes flags merkle_root = do
    guard (if n_txs == 0 then false else true) zero_transactions
    (t, q) ← set_compressed_at sha256_2 (tree_depth n_txs) (queues hashes (unpack flags))
    guard (bytes_eq merkle_root [] || bytes_eq merkle_root (reverse t.root)) invalid_root
    ok (record { n_txs = n_txs; tree = t; tx_indices = indices_from 0 t.merkle_hashes t.tx_hashes })

  -- PartialMerkleTree::setUncompressed
  unfoldable pub set_uncompressed : List MerkleLeaf → Result Error PartialMerkleTree
  unfolding set_uncompressed_at indices_from
  set_uncompressed leaves = do
    guard (if length leaves == 0 then false else true) empty_leaves
    t ← set_uncompressed_at sha256_2 (tree_depth (length leaves)) leaves
    ok (record {
      n_txs = length leaves;
      tree = t;
      tx_indices = indices_from 0 t.merkle_hashes t.tx_hashes;
    })

-- What `merge` appends to the three lists of the result.
pub record Lists : Type 0 where
  pub merkle_hashes : List Bytes
  pub tx_hashes : List Bytes
  pub bits : List Bool

abbrev pub nothing : Lists
nothing = record { merkle_hashes = []; tx_hashes = []; bits = [] }

abbrev pub lists_of : Subtree → Lists
lists_of t = record { merkle_hashes = t.merkle_hashes; tx_hashes = t.tx_hashes; bits = t.bits }

abbrev pub append : Lists → Lists → Lists
append a b = record {
  merkle_hashes = a.merkle_hashes ++ b.merkle_hashes;
  tx_hashes = a.tx_hashes ++ b.tx_hashes;
  bits = a.bits ++ b.bits;
}

-- What a call of `merge` appends, and the queues of the first and of the second tree after it.
abbrev pub Merged : Type 0
Merged = Lists × Queues × Queues

module _ (sha256_2 : Bytes → Bytes) where
  -- One tree has no hashes left: the other is parsed alone.
  abbrev pub take_rest : ℕ → Queues → Queues → Result Error Merged
  take_rest depth q other = do
    (t, q') ← set_compressed_at sha256_2 depth q
    ok (lists_of t, q', other)

  -- Both trees store a hash here: `h :: hs` and `g :: gs` are the queues.
  abbrev pub merge_leaf :
      Bool → Bytes → List Bytes → List Bool → Bytes → List Bytes → List Bool → Result Error Merged
  merge_leaf match h hs xs g gs ys = do
    guard (bytes_eq h g) leaf_mismatch
    ok (
      record { merkle_hashes = h ∷ []; tx_hashes = matched match h; bits = match ∷ [] },
      queues hs xs,
      queues gs ys,
    )

  -- Only the first tree goes on below this node: the second one stores its hash, `g`.
  abbrev pub merge_one : ℕ → Queues → Bytes → List Bytes → List Bool → Result Error Merged
  merge_one d q g gs ys = do
    (t, q') ← children sha256_2 (set_compressed_at sha256_2 d) (suc d) q
    guard (bytes_eq t.root g) node_mismatch
    ok (append (record nothing { bits = true ∷ [] }) (lists_of t), q', queues gs ys)

  -- Both trees go on: first the left subtrees, then the right ones.
  abbrev pub merge_both :
      (Queues → Queues → Result Error Merged) → Queues → Queues → Result Error Merged
  merge_both merge q p = do
    (l, q', p') ← merge q p
    (r, q'', p'') ← merge q' p'
    ok (append (record nothing { bits = true ∷ [] }) (append l r), q'', p'')

  -- PartialMerkleTree::merge, the recursive one. A swap of the queues lasts, as in the source.
  unfoldable pub merge_at : ℕ → Queues → Queues → Result Error Merged
  unfolding set_compressed_at
  merge_at depth (queues [] xs) (queues [] ys) = ok (nothing, queues [] ys, queues [] xs)
  merge_at depth (queues [] xs) (queues (g ∷ gs) ys) =
      take_rest depth (queues (g ∷ gs) ys) (queues [] xs)
  merge_at depth (queues (h ∷ hs) xs) (queues [] ys) =
      take_rest depth (queues (h ∷ hs) xs) (queues [] ys)
  merge_at depth (queues (h ∷ hs) []) (queues (g ∷ gs) ys) = err out_of_range
  merge_at depth (queues (h ∷ hs) (x ∷ xs)) (queues (g ∷ gs) []) = err out_of_range
  merge_at zero (queues (h ∷ hs) (x ∷ xs)) (queues (g ∷ gs) (y ∷ ys)) =
      merge_leaf (x || y) h hs xs g gs ys
  merge_at (suc d) (queues (h ∷ hs) (false ∷ xs)) (queues (g ∷ gs) (false ∷ ys)) =
      merge_leaf false h hs xs g gs ys
  merge_at (suc d) (queues (h ∷ hs) (true ∷ xs)) (queues (g ∷ gs) (true ∷ ys)) =
      merge_both (merge_at d) (queues (h ∷ hs) xs) (queues (g ∷ gs) ys)
  merge_at (suc d) (queues (h ∷ hs) (true ∷ xs)) (queues (g ∷ gs) (false ∷ ys)) =
      merge_one d (queues (h ∷ hs) xs) g gs ys
  merge_at (suc d) (queues (h ∷ hs) (false ∷ xs)) (queues (g ∷ gs) (true ∷ ys)) =
      merge_one d (queues (g ∷ gs) ys) h hs xs

  -- PartialMerkleTree::merge
  unfoldable pub merge : PartialMerkleTree → PartialMerkleTree → Result Error PartialMerkleTree
  unfolding merge_at indices_from
  merge p other = do
    guard (p.n_txs == other.n_txs) n_txs_mismatch
    guard (p.tree.depth == other.tree.depth) depth_mismatch
    guard (bytes_eq p.tree.root other.tree.root) root_mismatch
    (l, q, q') ←
        merge_at p.tree.depth (queues p.tree.merkle_hashes p.tree.bits)
          (queues other.tree.merkle_hashes other.tree.bits)
    ok (record {
      n_txs = p.n_txs;
      tree = record p.tree {
        merkle_hashes = l.merkle_hashes;
        tx_hashes = l.tx_hashes;
        bits = l.bits;
      };
      tx_indices = indices_from 0 l.merkle_hashes l.tx_hashes;
    })
