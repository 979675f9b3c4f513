-- ===== src/PartialMerkleTree/Serial.antt =====
-- Whole partial trees: `setUncompressed`, and `setCompressed` of its result.
use m_signa.Prelude.{
  ℕ, ◌-◌, ◌^◌, ◌∷◌, ◌≤◌, ◌<◌, ◌≡◌, refl, sym, ap, ◌∙◌, List, [], ◌++◌, Bool, true, false, ◌||◌,
  ◌==◌, length, replicate, length-map, append-nil, inr, arith, reverse,
}
use mathlib.Core.Path.{subst}
use m_signa.Bytes.{Bytes, bytes_eq, bytes_eq_refl}
use m_signa.Result.{ok, ok-injective, ◌>>◌, guard}
use m_signa.MerkleTree.{tree_depth, get_root, tree_root}
use m_signa.MerkleTree.Root.{get_root-tree_root}
use m_signa.MerkleTree.Levels.{tree_depth-HasBits, HasBits-lt}
use m_signa.PartialMerkleTree.Defs.{
  invalid_root, Subtree, PartialMerkleTree, MerkleLeaf, queues, unpack, get_flags,
  set_compressed_at, set_compressed, set_uncompressed, indices_from,
}
use m_signa.PartialMerkleTree.RoundTrip.{matches, hashes_of, Builds, build-Builds}
use m_signa.PartialMerkleTree.Flags.{unpack-get_flags}

or_true : (b : Bool) → (b || true) ≡ true
or_true true = refl
or_true false = refl

abbrev pub whole : ℕ → Subtree → PartialMerkleTree
whole n t = record { n_txs = n; tree = t; tx_indices = indices_from 0 t.merkle_hashes t.tx_hashes }

module _ (sha256_2 : Bytes → Bytes) where
  pub fits : (leaves : List MerkleLeaf) → length leaves ≤ 2 ^ tree_depth (length leaves)
  fits leaves = omega (
    arith,
    HasBits-lt (tree_depth (length leaves)) (length leaves - 1)
        (tree_depth-HasBits (length leaves)),
  )

  nonempty : (leaves : List MerkleLeaf) → 0 < length leaves → (length leaves == 0) ≡ false
  nonempty leaves p = ground arith

  pub set_uncompressed-whole :
      (leaves : List MerkleLeaf)
      → 0 < length leaves
      → (t : Subtree) × Builds sha256_2 (tree_depth (length leaves)) leaves t
        × (set_uncompressed sha256_2 leaves ≡ ok (whole (length leaves) t))
  set_uncompressed-whole leaves p =
      let (t, b) = build-Builds sha256_2 (tree_depth (length leaves)) leaves p (fits leaves) in
      (t, b, unfold set_uncompressed in rw (nonempty leaves p, b.built))

  -- Building a partial tree over any leaves succeeds. Its root is the block's Merkle root, as
  -- `MerkleTree::getRoot` computes it, and its transaction hashes are the matched leaves in order.
  pub set_uncompressed-root :
      (leaves : List MerkleLeaf)
      → 0 < length leaves
      → (p : PartialMerkleTree) × (set_uncompressed sha256_2 leaves ≡ ok p)
        × (p.n_txs ≡ length leaves)
        × (p.tree.root ≡ get_root sha256_2 (hashes_of leaves))
        × (p.tree.tx_hashes ≡ matches leaves)
  set_uncompressed-root leaves h =
      let (t, b, e) = set_uncompressed-whole leaves h in
      let size : length (hashes_of leaves) ≡ length leaves = length-map (λ l. l.0) leaves in
      (
        whole (length leaves) t,
        e,
        refl,
        b.root_eq
            ∙ sym (
                get_root-tree_root sha256_2 (hashes_of leaves) (omega arith)
                ∙ ap (λ (n : ℕ). tree_root sha256_2 (tree_depth n) (hashes_of leaves)) size),
        b.matches_eq,
      )

  rebuild :
      (leaves : List MerkleLeaf) (t : Subtree) (k : ℕ)
      → 0 < length leaves
      → Builds sha256_2 (tree_depth (length leaves)) leaves t
      → unpack (get_flags t.bits) ≡ t.bits ++ replicate k false
      → set_compressed sha256_2 (length leaves) t.merkle_hashes (get_flags t.bits) (reverse t.root)
        ≡ ok (whole (length leaves) t)
  unfolding set_compressed
  rebuild leaves t k p b flags =
      let parsed : set_compressed_at sha256_2 (tree_depth (length leaves))
            (queues t.merkle_hashes (t.bits ++ replicate k false))
          ≡ ok (t, queues [] (replicate k false)) =
        rw (append-nil t.merkle_hashes) at (b.parsed [] (replicate k false) (inr refl)) in
      rw (nonempty leaves p, flags, parsed)
        (ap
            (λ (c : Bool).
              guard (bytes_eq (reverse t.root) [] || c) invalid_root
              >> ok (whole (length leaves) t))
            (bytes_eq_refl (reverse t.root))
          ∙ ap (λ (c : Bool). guard c invalid_root >> ok (whole (length leaves) t)) (or_true _))

  -- A partial tree that `setUncompressed` built is rebuilt by `setCompressed` from its count, its
  -- hashes, its flag bytes and its root (in the byte order of a block header).
  pub set_compressed-set_uncompressed :
      (leaves : List MerkleLeaf) (p : PartialMerkleTree)
      → set_uncompressed sha256_2 leaves ≡ ok p
      → set_compressed sha256_2 p.n_txs p.tree.merkle_hashes
          (get_flags p.tree.bits)
          (reverse p.tree.root)
        ≡ ok p
  set_compressed-set_uncompressed [] p e = unfold set_uncompressed in cc
  set_compressed-set_uncompressed (l ∷ ls) p e =
      let leaves : List MerkleLeaf = l ∷ ls in
      let (t, b, e') = set_uncompressed-whole leaves (omega arith) in
      let (k, flags) = unpack-get_flags t.bits in
      subst
        (λ (q : PartialMerkleTree).
          set_compressed sha256_2 q.n_txs q.tree.merkle_hashes (get_flags q.tree.bits)
            (reverse q.tree.root)
          ≡ ok q)
        (ok-injective (sym e' ∙ e)) (rebuild leaves t k (omega arith) b flags)
