-- ===== src/PartialMerkleTree/Merge.antt =====
-- `merge` of two trees over the same leaves.
pub mod Marks
pub mod Step
pub mod Trees
pub mod Walk
use m_signa.Prelude.{
  ℕ, ◌<◌, ◌≤◌, ◌≡◌, refl, sym, ap, ◌∙◌, ◌⊎◌, inl, inr, List, [], ◌++◌, Bool, map, ◌||◌, ◌==◌, ◌^◌,
  true, ==_iff, length, length-map, append-nil, arith,
}
use mathlib.Core.Path.{ap₂, subst}
use m_signa.Bytes.{Bytes, bytes_eq, bytes_eq_refl}
use m_signa.Result.{Result, ok, ok-injective}
use m_signa.MerkleTree.{tree_depth, tree_root}
use m_signa.PartialMerkleTree.Defs.{
  Subtree, PartialMerkleTree, MerkleLeaf, Queues, queues, lists_of, Merged, merge_at, merge,
  set_uncompressed,
}
use m_signa.PartialMerkleTree.RoundTrip.{hashes_of, Builds}
use m_signa.PartialMerkleTree.Serial.{whole, fits, set_uncompressed-whole}
use m_signa.PartialMerkleTree.Merge.Marks.{
  Mark, firsts, seconds, eithers, hashes-firsts, hashes-eithers,
}
use m_signa.PartialMerkleTree.Merge.Step.{subtree, front, Walked}
use m_signa.PartialMerkleTree.Merge.Walk.{walk-Merges}

module _ (sha256_2 : Bytes → Bytes) where
  tree_of :
      (f : Mark → MerkleLeaf) (ms : List Mark)
      → 0 < length ms
      → (t : Subtree) × Builds sha256_2 (tree_depth (length ms)) (map f ms) t
        × (set_uncompressed sha256_2 (map f ms) ≡ ok (whole (length ms) t))
  tree_of f ms some_leaf =
      subst
        (λ (n : ℕ).
          (t : Subtree) × Builds sha256_2 (tree_depth n) (map f ms) t
          × (set_uncompressed sha256_2 (map f ms) ≡ ok (whole n t)))
        (length-map f ms)
        (set_uncompressed-whole sha256_2 (map f ms) (omega (arith, length-map f ms, some_leaf)))

  -- Nothing follows the trees in the queues.
  trimmed :
      (d : ℕ) (t1 t2 t3 : Subtree)
      → t1.depth ≡ d
      → Walked
          (merge_at sha256_2 d (front t1 [] []) (front t2 [] []))
          (lists_of t3)
          (queues [] [])
          (queues [] [])
      → Walked
          (merge_at sha256_2 t1.depth
            (queues t1.merkle_hashes t1.bits)
            (queues t2.merkle_hashes t2.bits))
          (lists_of t3)
          (queues [] [])
          (queues [] [])
  trimmed d t1 t2 t3 e w =
      let at_depth =
        subst
          (λ (n : ℕ).
            Walked (merge_at sha256_2 n (front t1 [] []) (front t2 [] [])) (lists_of t3)
              (queues [] []) (queues [] []))
          (sym e) w in
      rw
        (
          append-nil t1.merkle_hashes,
          append-nil t1.bits,
          append-nil t2.merkle_hashes,
          append-nil t2.bits,
        )
        at at_depth

  -- The tree that `merge` makes of the lists of `t3`.
  merged :
      (n : ℕ) (t1 t2 t3 : Subtree) (q p : Queues)
      → t1.depth ≡ t2.depth
      → t1.depth ≡ t3.depth
      → t1.root ≡ t2.root
      → t1.root ≡ t3.root
      → merge_at sha256_2 t1.depth
          (queues t1.merkle_hashes t1.bits)
          (queues t2.merkle_hashes t2.bits)
        ≡ ok (lists_of t3, q, p)
      → merge sha256_2 (whole n t1) (whole n t2) ≡ ok (whole n t3)
  unfolding merge
  merged n t1 t2 t3 q p d2 d3 r2 r3 walked =
      let same_n : (n == n) ≡ true = (==_iff n n).1 refl in
      let same_depth : (t1.depth == t2.depth) ≡ true = (==_iff t1.depth t2.depth).1 d2 in
      let same_root : bytes_eq t1.root t2.root ≡ true =
        subst (λ (x : Bytes). bytes_eq t1.root x ≡ true) r2 (bytes_eq_refl t1.root) in
      rw (same_n, same_depth, same_root, walked)
        (ap₂
          (λ (d : ℕ) (r : Bytes). ok (whole n (subtree d t3.merkle_hashes t3.tx_hashes t3.bits r)))
          d3 r3)

  -- Over the same leaves, some of which match in a first tree and some in a second: `setUncompressed`
  -- builds both trees and that of the joined matches, and `merge` of the first with the second
  -- returns the tree of the joined matches.
  pub merge-set_uncompressed :
      (ms : List Mark)
      → 0 < length ms
      → (p : PartialMerkleTree) × (q : PartialMerkleTree) × (r : PartialMerkleTree)
        × (set_uncompressed sha256_2 (firsts ms) ≡ ok p)
        × (set_uncompressed sha256_2 (seconds ms) ≡ ok q)
        × (set_uncompressed sha256_2 (eithers ms) ≡ ok r)
        × (merge sha256_2 p q ≡ ok r)
  merge-set_uncompressed ms some_leaf =
      let (t1, b1, e1) = tree_of (λ m. (m.0, m.1)) ms some_leaf in
      let (t2, b2, e2) = tree_of (λ m. (m.0, m.2)) ms some_leaf in
      let (t3, b3, e3) = tree_of (λ m. (m.0, m.1 || m.2)) ms some_leaf in
      let d : ℕ = tree_depth (length ms) in
      let room : length ms ≤ 2 ^ d =
        subst (λ (n : ℕ). n ≤ 2 ^ tree_depth n) (length-map (λ (m : Mark). (m.0, m.1)) ms)
          (fits sha256_2 (firsts ms)) in
      let roots =
        λ (u : Subtree) (l : List MerkleLeaf) (b : Builds sha256_2 d l u)
            (e : hashes_of (firsts ms) ≡ hashes_of l).
          b1.root_eq ∙ ap (tree_root sha256_2 d) e ∙ sym b.root_eq in
      let same_hashes : hashes_of (firsts ms) ≡ hashes_of (eithers ms) = hashes-eithers ms in
      let go = λ (q p : Queues).
        merged (length ms) t1 t2 t3 q p (b1.depth_eq ∙ sym b2.depth_eq)
          (b1.depth_eq ∙ sym b3.depth_eq) (roots t2 (seconds ms) b2 (hashes-firsts ms))
          (roots t3 (eithers ms) b3 same_hashes) in
      let done : merge sha256_2 (whole (length ms) t1) (whole (length ms) t2)
          ≡ ok (whole (length ms) t3) =
        elim (trimmed d t1 t2 t3 b1.depth_eq (
          walk-Merges sha256_2 d ms t1 t2 t3 some_leaf room (record { b1 = b1; b2 = b2; b3 = b3 })
            [] [] [] [] (inr (refl, refl)))) [
              | inl e ↦ go (queues [] []) (queues [] []) e
              | inr e ↦ go (queues [] []) (queues [] []) e
            ] in
      (whole (length ms) t1, whole (length ms) t2, whole (length ms) t3, e1, e2, e3, done)
