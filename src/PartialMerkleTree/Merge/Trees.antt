-- ===== src/PartialMerkleTree/Merge/Trees.antt =====
-- The three trees over the same leaves, and their parts.
use m_signa.Prelude.{
  ℕ, suc, ◌^◌, ◌≤◌, ◌<◌, ◌≡◌, sym, ap, ◌∙◌, List, [], ◌∷◌, Bool, ◌||◌, length, length-map, take,
  drop, map, arith,
}
use mathlib.Core.Path.{subst}
use m_signa.Bytes.{Bytes}
use m_signa.Result.{ok, ok-injective}
use m_signa.MerkleTree.{tree_root}
use m_signa.PartialMerkleTree.Defs.{
  Subtree, MerkleLeaf, close, join, join_left, one_hash, set_uncompressed_at,
}
use m_signa.PartialMerkleTree.RoundTrip.{matches, Builds, build-Builds, close-root}
use m_signa.PartialMerkleTree.Merge.Marks.{
  Mark, firsts, seconds, eithers, flips, take-map, drop-map, firsts-flips, seconds-flips,
  eithers-flips, hashes-firsts,
}

module _ (sha256_2 : Bytes → Bytes) where
  -- The trees of the first, of the second and of the joined matches.
  pub record Built (d : ℕ) (ms : List Mark) (t1 t2 t3 : Subtree) : Type 0 where
    pub b1 : Builds sha256_2 d (firsts ms) t1
    pub b2 : Builds sha256_2 d (seconds ms) t2
    pub b3 : Builds sha256_2 d (eithers ms) t3

  pub same_tree :
      (d : ℕ) (xs ys : List MerkleLeaf) (t u : Subtree)
      → Builds sha256_2 d xs t
      → Builds sha256_2 d ys u
      → xs ≡ ys
      → t ≡ u
  same_tree d xs ys t u b c e =
      ok-injective (sym b.built ∙ ap (set_uncompressed_at sha256_2 d) e ∙ c.built)

  pub flip-Built :
      (d : ℕ) (ms : List Mark) (t1 t2 t3 : Subtree)
      → Built d ms t1 t2 t3
      → Built d (flips ms) t2 t1 t3
  flip-Built d ms t1 t2 t3 b = record {
    b1 = subst (λ (l : List MerkleLeaf). Builds sha256_2 d l t2) (sym (firsts-flips ms)) b.b2;
    b2 = subst (λ (l : List MerkleLeaf). Builds sha256_2 d l t1) (sym (seconds-flips ms)) b.b1;
    b3 = subst (λ (l : List MerkleLeaf). Builds sha256_2 d l t3) (sym (eithers-flips ms)) b.b3;
  }

  pub no_matches :
      (d : ℕ) (u : Subtree) (l : List MerkleLeaf)
      → Builds sha256_2 d l (close u)
      → u.tx_hashes ≡ []
      → matches l ≡ []
  no_matches d u l b e = sym b.matches_eq ∙ (close-root sha256_2 u).2 ∙ e

  pub same_root :
      (d : ℕ) (ms : List Mark) (u1 u2 u3 : Subtree)
      → Built d ms (close u1) (close u2) (close u3)
      → u1.root ≡ u2.root
  same_root d ms u1 u2 u3 b =
      sym (close-root sha256_2 u1).0
      ∙ b.b1.root_eq
      ∙ ap (tree_root sha256_2 d) (hashes-firsts ms)
      ∙ sym b.b2.root_eq
      ∙ (close-root sha256_2 u2).0

  pub leaf_tree :
      (h : Bytes) (a : Bool) (t : Subtree) → Builds sha256_2 0 ((h, a) ∷ []) t → one_hash 0 a h ≡ t
  unfolding set_uncompressed_at
  leaf_tree h a t b = ok-injective b.built

  -- The tree over some leaves from the trees of its parts.
  pub left_tree :
      (f : Mark → MerkleLeaf) (d : ℕ) (ms : List Mark) (l t : Subtree)
      → drop (2 ^ d) ms ≡ []
      → Builds sha256_2 d (map f (take (2 ^ d) ms)) l
      → Builds sha256_2 (suc d) (map f ms) t
      → close (join_left sha256_2 (suc d) l) ≡ t
  left_tree f d ms l t e bl b =
      let computed : set_uncompressed_at sha256_2 (suc d) (map f ms)
          ≡ ok (close (join_left sha256_2 (suc d) l)) =
        unfold set_uncompressed_at in
        rw (take-map f (2 ^ d) ms, drop-map f (2 ^ d) ms, bl.built, e) in
      ok-injective (sym computed ∙ b.built)

  pub both_tree :
      (f : Mark → MerkleLeaf) (d : ℕ) (ms : List Mark) (m : Mark) (right : List Mark)
      (l r t : Subtree)
      → drop (2 ^ d) ms ≡ m ∷ right
      → Builds sha256_2 d (map f (take (2 ^ d) ms)) l
      → Builds sha256_2 d (map f (m ∷ right)) r
      → Builds sha256_2 (suc d) (map f ms) t
      → close (join sha256_2 (suc d) l r) ≡ t
  both_tree f d ms m right l r t e bl br b =
      let computed : set_uncompressed_at sha256_2 (suc d) (map f ms)
          ≡ ok (close (join sha256_2 (suc d) l r)) =
        unfold set_uncompressed_at in
        rw (take-map f (2 ^ d) ms, drop-map f (2 ^ d) ms, bl.built, e, br.built) in
      ok-injective (sym computed ∙ b.built)

  pub trees :
      (d : ℕ) (ms : List Mark)
      → 0 < length ms
      → length ms ≤ 2 ^ d
      → (t1 : Subtree) × (t2 : Subtree) × (t3 : Subtree) × Built d ms t1 t2 t3
  trees d ms some_leaf fits =
      let build = λ (f : Mark → MerkleLeaf).
        build-Builds sha256_2 d (map f ms) (omega (arith, length-map f ms, some_leaf))
          (omega (arith, length-map f ms, fits)) in
      let (t1, b1) = build (λ m. (m.0, m.1)) in
      let (t2, b2) = build (λ m. (m.0, m.2)) in
      let (t3, b3) = build (λ m. (m.0, m.1 || m.2)) in
      (t1, t2, t3, record { b1 = b1; b2 = b2; b3 = b3 })
