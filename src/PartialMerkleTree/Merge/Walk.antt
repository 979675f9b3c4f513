-- ===== src/PartialMerkleTree/Merge/Walk.antt =====
-- The recursion of `merge` over two trees that `setUncompressed` built over the same leaves.
use m_signa.Prelude.{
  ℕ, zero, suc, ◌+◌, ◌^◌, ◌≤◌, ◌<◌, ◌≡◌, refl, sym, ap, ◌∙◌, ◌⊎◌, inl, inr, List, [], ◌∷◌, ◌++◌,
  Bool, ◌||◌, length, length-map, length-take, length-drop, take, drop, arith,
}
use mathlib.Core.Path.{subst}
use native.Mathlib.Nat.{pow-suc}
use m_signa.Bytes.{Bytes, bytes_eq_refl}
use m_signa.MerkleTree.Root.{pow-pos}
use m_signa.PartialMerkleTree.Defs.{
  Subtree, queues, lists_of, close, join, join_left, one_hash, merge_at, merge_both,
}
use m_signa.PartialMerkleTree.RoundTrip.{HasHash, close-root, append-HasHash}
use m_signa.PartialMerkleTree.Merge.Marks.{
  Mark, firsts, seconds, eithers, flips, eithers-firsts, eithers-seconds, none_either,
}
use m_signa.PartialMerkleTree.Merge.Trees.{
  Built, same_tree, flip-Built, no_matches, same_root, leaf_tree, left_tree, both_tree, trees,
}
use m_signa.PartialMerkleTree.Merge.Step.{
  front, Walked, inner, Merges, node_walk, both_walk, left_walk,
}

module _ (sha256_2 : Bytes → Bytes) where
  -- How many leaves there are, and whether the hashes end with them.
  abbrev Ends : ℕ → ℕ → List Bytes → List Bytes → Type 0
  Ends d n hs gs = (n ≡ 2 ^ d) ⊎ ((hs ≡ []) × (gs ≡ []))

  Ends-first : (d n k : ℕ) (hs gs : List Bytes) → k ≡ n → Ends d n hs gs → (k ≡ 2 ^ d) ⊎ (hs ≡ [])
  Ends-first d n k hs gs e (inl f) = inl (e ∙ f)
  Ends-first d n k hs gs e (inr (f, g)) = inr f

  Ends-flip : (d n : ℕ) (hs gs : List Bytes) → Ends d n hs gs → Ends d n gs hs
  Ends-flip d n hs gs (inl f) = inl f
  Ends-flip d n hs gs (inr (f, g)) = inr (g, f)

  -- A node over the trees `u1` and `u2`, if the walk over their parts appends those of `u3`.
  close-Merges :
      (d : ℕ) (ms : List Mark) (m1 m2 : List Bytes) (v1 v2 u3 : Subtree)
      → let u1 : Subtree = record v1 { merkle_hashes = m1 } in
        let u2 : Subtree = record v2 { merkle_hashes = m2 } in
        Built sha256_2 (suc d) ms (close u1) (close u2) (close u3)
        → HasHash sha256_2 m1
        → HasHash sha256_2 m2
        → ((hs gs : List Bytes) (xs ys : List Bool)
            → Ends (suc d) (length ms) hs gs
            → Walked
                (merge_both sha256_2 (merge_at sha256_2 d) (front u1 hs xs) (front u2 gs ys))
                (inner (lists_of u3))
                (queues hs xs)
                (queues gs ys))
        → Merges sha256_2 (suc d) (length ms) (close u1) (close u2) (close u3)
  close-Merges d ms [] m2 v1 v2 u3 b (g, gs', e) n2 w = cc
  close-Merges d ms (h1 ∷ m1) [] v1 v2 u3 b n1 (g, gs', e) w = cc
  close-Merges d ms (h1 ∷ m1) (h2 ∷ m2) v1 v2 u3 b n1 n2 w = λ hs gs xs ys c.
      let u1 : Subtree = record v1 { merkle_hashes = h1 ∷ m1 } in
      let u2 : Subtree = record v2 { merkle_hashes = h2 ∷ m2 } in
      let s1 = length-map (λ (m : Mark). (m.0, m.1)) ms in
      let s2 = length-map (λ (m : Mark). (m.0, m.2)) ms in
      node_walk sha256_2 d v1.depth v2.depth u3.depth h1 h2 m1 m2 u3.merkle_hashes v1.tx_hashes
        v2.tx_hashes u3.tx_hashes v1.bits v2.bits u3.bits v1.root v2.root u3.root hs gs xs ys
        (same_root sha256_2 (suc d) ms u1 u2 u3 b)
        (b.b1.parsed hs xs (Ends-first (suc d) (length ms) _ hs gs s1 c))
        (b.b2.parsed gs ys
          (Ends-first (suc d) (length ms) _ gs hs s2 (Ends-flip (suc d) (length ms) hs gs c)))
        (λ e.
          same_tree sha256_2 (suc d) (eithers ms) (firsts ms) (close u3) (close u1) b.b3 b.b1
            (eithers-firsts ms (no_matches sha256_2 (suc d) u2 (seconds ms) b.b2 e)))
        (λ e.
          same_tree sha256_2 (suc d) (eithers ms) (seconds ms) (close u3) (close u2) b.b3 b.b2
            (eithers-seconds ms (no_matches sha256_2 (suc d) u1 (firsts ms) b.b1 e)))
        (λ e.
          sym (close-root sha256_2 u1).2
          ∙ b.b1.matches_eq
          ∙ none_either ms (no_matches sha256_2 (suc d) u3 (eithers ms) b.b3 e))
        (w hs gs xs ys c)

  -- The three trees under other names.
  renamed :
      (d n : ℕ) (ms : List Mark) (u1 u2 u3 t1 t2 t3 : Subtree)
      → u1 ≡ t1
      → u2 ≡ t2
      → u3 ≡ t3
      → (Built sha256_2 d ms u1 u2 u3 → Merges sha256_2 d n u1 u2 u3)
      → Built sha256_2 d ms t1 t2 t3
      → Merges sha256_2 d n t1 t2 t3
  renamed d n ms u1 u2 u3 t1 t2 t3 e1 e2 e3 go =
      subst
        (λ (t : Subtree × Subtree × Subtree).
          Built sha256_2 d ms t.0 t.1 t.2 → Merges sha256_2 d n t.0 t.1 t.2)
        (λ i. (e1 i, e2 i, e3 i)) go

  leaf-Merges :
      (h : Bytes) (a b : Bool)
      → Merges sha256_2 0 1 (one_hash 0 a h) (one_hash 0 b h) (one_hash 0 (a || b) h)
  unfolding merge_at
  leaf-Merges h a b hs gs xs ys c = inl (rw (bytes_eq_refl h) refl)

  -- The walks over the parts, whichever queue comes first.
  abbrev Walks : ℕ → Type 0
  Walks d =
      (ms : List Mark) (t1 t2 t3 : Subtree)
      → 0 < length ms
      → length ms ≤ 2 ^ d
      → Built sha256_2 d ms t1 t2 t3
      → Merges sha256_2 d (length ms) t1 t2 t3

  flipped :
      (d : ℕ) (ms : List Mark) (t1 t2 t3 : Subtree)
      → Walks d
      → 0 < length ms
      → length ms ≤ 2 ^ d
      → Built sha256_2 d ms t1 t2 t3
      → Merges sha256_2 d (length ms) t2 t1 t3
  flipped d ms t1 t2 t3 go some_leaf fits b =
      let size : length (flips ms) ≡ length ms = length-map (λ (m : Mark). (m.0, m.2, m.1)) ms in
      subst (λ (n : ℕ). Merges sha256_2 d n t2 t1 t3) size
        (go (flips ms) t2 t1 t3 (omega (arith, size, some_leaf)) (omega (arith, size, fits))
          (flip-Built sha256_2 d ms t1 t2 t3 b))

  -- Without a right part, no hash may follow.
  left_inner :
      (d n k : ℕ) (l1 l2 l3 : Subtree) (hs gs : List Bytes) (xs ys : List Bool)
      → (n ≡ 2 ^ suc d → ⊥)
      → Merges sha256_2 d k l1 l2 l3
      → Ends (suc d) n hs gs
      → Walked
          (merge_both sha256_2
            (merge_at sha256_2 d)
            (front (join_left sha256_2 (suc d) l1) hs xs)
            (front (join_left sha256_2 (suc d) l2) gs ys))
          (inner (lists_of (join_left sha256_2 (suc d) l3)))
          (queues hs xs)
          (queues gs ys)
  left_inner d n k l1 l2 l3 hs gs xs ys no_room w (inl f) = absurd (no_room f)
  left_inner d n k l1 l2 l3 [] [] xs ys no_room w (inr c) = left_walk sha256_2 d k l1 l2 l3 xs ys w
  left_inner d n k l1 l2 l3 (h ∷ hs) gs xs ys no_room w (inr (e, f)) = cc
  left_inner d n k l1 l2 l3 [] (g ∷ gs) xs ys no_room w (inr (e, f)) = cc

  -- A tree that is full has a full right part.
  Ends-right :
      (d n m : ℕ) (hs gs : List Bytes) → n ≡ 2 ^ d + m → Ends (suc d) n hs gs → Ends d m hs gs
  Ends-right d n m hs gs e (inl f) = inl (omega (arith, e, f, pow-suc 2 d))
  Ends-right d n m hs gs e (inr c) = inr c

  node-Merges :
      (d : ℕ) (ms right : List Mark) (t1 t2 t3 : Subtree)
      → Walks d
      → drop (2 ^ d) ms ≡ right
      → 0 < length ms
      → length ms ≤ 2 ^ suc d
      → Built sha256_2 (suc d) ms t1 t2 t3
      → Merges sha256_2 (suc d) (length ms) t1 t2 t3
  node-Merges d ms [] t1 t2 t3 go e some_leaf fits b =
      let left : List Mark = take (2 ^ d) ms in
      let size = length-take (2 ^ d) ms in
      let p : 0 < length left = omega (arith, size, pow-pos d) in
      let q : length left ≤ 2 ^ d = omega (arith, size) in
      let short : length ms ≤ 2 ^ d = omega (arith, length-drop (2 ^ d) ms, ap length e) in
      let (l1, l2, l3, bl) = trees sha256_2 d left p q in
      let u1 = join_left sha256_2 (suc d) l1 in
      let u2 = join_left sha256_2 (suc d) l2 in
      let u3 = join_left sha256_2 (suc d) l3 in
      let walk = go left l1 l2 l3 p q bl in
      let no_room : (length ms ≡ 2 ^ suc d) → ⊥ =
        λ f. absurd (omega (arith, f, short, pow-suc 2 d, pow-pos d)) in
      renamed (suc d) (length ms) ms (close u1) (close u2) (close u3) t1 t2 t3
        (left_tree sha256_2 _ d ms l1 t1 e bl.b1 b.b1)
        (left_tree sha256_2 _ d ms l2 t2 e bl.b2 b.b2)
        (left_tree sha256_2 _ d ms l3 t3 e bl.b3 b.b3)
        (λ bu.
          close-Merges d ms l1.merkle_hashes l2.merkle_hashes u1 u2 u3 bu bl.b1.has_hash
            bl.b2.has_hash
            (λ hs gs xs ys c.
              left_inner d (length ms) (length left) l1 l2 l3 hs gs xs ys no_room walk c))
        b
  node-Merges d ms (m ∷ right) t1 t2 t3 go e some_leaf fits b =
      let left : List Mark = take (2 ^ d) ms in
      let rest : List Mark = m ∷ right in
      let sum : length ms ≡ 2 ^ d + length rest =
        omega (arith, length-drop (2 ^ d) ms, ap length e) in
      let full : length left ≡ 2 ^ d = omega (arith, length-take (2 ^ d) ms, sum) in
      let p : 0 < length left = omega (arith, full, pow-pos d) in
      let q : length left ≤ 2 ^ d = omega (arith, full) in
      let q' : length rest ≤ 2 ^ d = omega (arith, sum, fits, pow-suc 2 d) in
      let (l1, l2, l3, bl) = trees sha256_2 d left p q in
      let (r1, r2, r3, br) = trees sha256_2 d rest (omega arith) q' in
      let u1 = join sha256_2 (suc d) l1 r1 in
      let u2 = join sha256_2 (suc d) l2 r2 in
      let u3 = join sha256_2 (suc d) l3 r3 in
      let walk = go left l1 l2 l3 p q bl in
      let forth = go rest r1 r2 r3 (omega arith) q' br in
      let back = flipped d rest r1 r2 r3 go (omega arith) q' br in
      renamed (suc d) (length ms) ms (close u1) (close u2) (close u3) t1 t2 t3
        (both_tree sha256_2 _ d ms m right l1 r1 t1 e bl.b1 br.b1 b.b1)
        (both_tree sha256_2 _ d ms m right l2 r2 t2 e bl.b2 br.b2 b.b2)
        (both_tree sha256_2 _ d ms m right l3 r3 t3 e bl.b3 br.b3 b.b3)
        (λ bu.
          close-Merges d ms (l1.merkle_hashes ++ r1.merkle_hashes)
            (l2.merkle_hashes ++ r2.merkle_hashes) u1 u2 u3 bu
            (append-HasHash sha256_2 l1.merkle_hashes r1.merkle_hashes bl.b1.has_hash)
            (append-HasHash sha256_2 l2.merkle_hashes r2.merkle_hashes bl.b2.has_hash)
            (λ hs gs xs ys c.
              let c' = Ends-right d (length ms) (length rest) hs gs sum c in
              both_walk sha256_2 d (length left) (length rest) l1 l2 l3 r1 r2 r3 hs gs xs ys full c'
                (Ends-flip d (length rest) hs gs c') walk forth back))
        b

  pub walk-Merges : (d : ℕ) → Walks d
  walk-Merges zero [] t1 t2 t3 some_leaf fits b = absurd (omega (arith, some_leaf))
  walk-Merges zero ((h, a, c) ∷ []) t1 t2 t3 some_leaf fits b =
      renamed 0 1 ((h, a, c) ∷ []) (one_hash 0 a h) (one_hash 0 c h) (one_hash 0 (a || c) h) t1 t2
        t3 (leaf_tree sha256_2 h a t1 b.b1) (leaf_tree sha256_2 h c t2 b.b2)
        (leaf_tree sha256_2 h (a || c) t3 b.b3) (λ bu. leaf-Merges h a c) b
  walk-Merges zero (m ∷ m' ∷ ms) t1 t2 t3 some_leaf fits b = absurd (omega (arith, fits))
  walk-Merges (suc d) ms t1 t2 t3 some_leaf fits b =
      node-Merges d ms (drop (2 ^ d) ms) t1 t2 t3 (walk-Merges d) refl some_leaf fits b
