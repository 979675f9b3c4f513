-- ===== src/PartialMerkleTree/RoundTrip.antt =====
-- The recursions of `setUncompressed` and `setCompressed` against each other.
use m_signa.Prelude.{
  ℕ, zero, suc, ◌+◌, ◌^◌, ◌≤◌, ◌<◌, ◌≡◌, ◌⊎◌, inl, inr, refl, sym, ap, ◌∙◌, List, [], ◌∷◌, ◌++◌,
  Bool, true, false, map, length, length-take, length-drop, take, drop, take-append-drop,
  append_assoc, append-nil, arith,
}
use m_signa.Bytes.{Bytes}
use m_signa.Result.{Result, ok, ◌>>=◌}
use m_signa.MerkleTree.{tree_root, or_left}
use m_signa.MerkleTree.Root.{pow-pos}
use m_signa.PartialMerkleTree.Defs.{
  Error, Subtree, MerkleLeaf, Queues, queues, one_hash, matched, close, join, join_left, right_part,
  children, set_compressed_at, set_uncompressed_at,
}
use mathlib.Core.Path.{ap₂, subst}
use native.Mathlib.Nat.{pow-suc}

-- The hashes of the leaves that match, in order.
unfoldable pub matches : List MerkleLeaf → List Bytes
matches [] = []
matches ((h, bit) ∷ rest) = matched bit h ++ matches rest

abbrev pub hashes_of : List MerkleLeaf → List Bytes
hashes_of = map (λ l. l.0)

pub matches-append : (xs ys : List MerkleLeaf) → matches (xs ++ ys) ≡ matches xs ++ matches ys
unfolding matches
matches-append [] ys = refl
matches-append ((h, true) ∷ rest) ys = ap (◌∷◌ h) (matches-append rest ys)
matches-append ((h, false) ∷ rest) ys = matches-append rest ys

map-take : (n : ℕ) (xs : List MerkleLeaf) → hashes_of (take n xs) ≡ take n (hashes_of xs)
map-take zero xs = refl
map-take (suc n) [] = refl
map-take (suc n) (x ∷ xs) = ap (◌∷◌ x.0) (map-take n xs)

map-drop : (n : ℕ) (xs : List MerkleLeaf) → hashes_of (drop n xs) ≡ drop n (hashes_of xs)
map-drop zero xs = refl
map-drop (suc n) [] = refl
map-drop (suc n) (x ∷ xs) = map-drop n xs

module _ (sha256_2 : Bytes → Bytes) where
  -- The parser takes the tree off the front of the queues, and leaves what follows it. A tree that
  -- is not full has no right part somewhere, which the parser sees from the end of the hashes.
  abbrev pub Parsed : ℕ → List MerkleLeaf → Subtree → Type 0
  Parsed d leaves t =
      (hs : List Bytes) (bits : List Bool)
      → (length leaves ≡ 2 ^ d) ⊎ (hs ≡ [])
      → set_compressed_at sha256_2 d (queues (t.merkle_hashes ++ hs) (t.bits ++ bits))
        ≡ ok (t, queues hs bits)

  -- At least one hash is stored.
  abbrev pub HasHash : List Bytes → Type 0
  HasHash hs = (g : Bytes) × (gs : List Bytes) × (hs ≡ g ∷ gs)

  -- The tree over these leaves, with its root and its matches as they should be.
  pub record Builds (d : ℕ) (leaves : List MerkleLeaf) (t : Subtree) : Type 0 where
    pub built : set_uncompressed_at sha256_2 d leaves ≡ ok t
    pub depth_eq : t.depth ≡ d
    pub root_eq : t.root ≡ tree_root sha256_2 d (hashes_of leaves)
    pub matches_eq : t.tx_hashes ≡ matches leaves
    pub has_hash : HasHash t.merkle_hashes
    pub parsed : Parsed d leaves t

  inner_step :
      (d : ℕ) (merkle hs : List Bytes) (bits : List Bool)
      → HasHash merkle
      → set_compressed_at sha256_2 (suc d) (queues (merkle ++ hs) (true ∷ bits)) ≡ (
          children sha256_2 (set_compressed_at sha256_2 d) (suc d) (queues (merkle ++ hs) bits)
          >>= λ r. ok (record (r.0) { bits = true ∷ r.0.bits }, r.1))
  inner_step d [] hs bits (g, gs, e) = cc
  inner_step d (h ∷ merkle) hs bits n = unfold set_compressed_at in refl

  right_step :
      (depth : ℕ) (l r : Subtree) (merkle hs : List Bytes) (bits : List Bool) (q : Queues)
      (parse : Queues → Result Error (Subtree × Queues))
      → HasHash merkle
      → parse (queues (merkle ++ hs) bits) ≡ ok (r, q)
      → right_part sha256_2 parse depth l (queues (merkle ++ hs) bits)
        ≡ ok (join sha256_2 depth l r, q)
  right_step depth l r [] hs bits q parse (g, gs, e) p = cc
  right_step depth l r (h ∷ merkle) hs bits q parse n p = rw p

  -- If the children of a node are parsed back, so is the node, pruned or not.
  close-Parsed :
      (d : ℕ) (merkle tx : List Bytes) (bs : List Bool) (root : Bytes) (hs : List Bytes)
      (bits : List Bool)
      → let u : Subtree = record {
        depth = suc d;
        merkle_hashes = merkle;
        tx_hashes = tx;
        bits = bs;
        root = root;
      } in
        HasHash merkle
        → children sha256_2
            (set_compressed_at sha256_2 d)
            (suc d)
            (queues (merkle ++ hs) (bs ++ bits))
          ≡ ok (u, queues hs bits)
        → set_compressed_at sha256_2
            (suc d)
            (queues ((close u).merkle_hashes ++ hs) ((close u).bits ++ bits))
          ≡ ok (close u, queues hs bits)
  close-Parsed d merkle [] bs root hs bits n e = unfold set_compressed_at in refl
  close-Parsed d merkle (x ∷ tx) bs root hs bits n e = inner_step d merkle hs (bs ++ bits) n ∙ rw e

  close-HasHash : (u : Subtree) → HasHash u.merkle_hashes → HasHash (close u).merkle_hashes
  close-HasHash u n = pick u.tx_hashes
    where
      pick : (tx : List Bytes) → HasHash (close (record u { tx_hashes = tx })).merkle_hashes
      pick [] = (u.root, [], refl)
      pick (x ∷ tx) = n

  pub append-HasHash : (xs ys : List Bytes) → HasHash xs → HasHash (xs ++ ys)
  append-HasHash [] ys (g, gs, e) = cc
  append-HasHash (x ∷ xs) ys n = (x, xs ++ ys, refl)

  -- The left subtree alone.
  left-Parsed :
      (d : ℕ) (leaves left : List MerkleLeaf) (l : Subtree)
      → length leaves < 2 ^ suc d
      → HasHash l.merkle_hashes
      → Parsed d left l
      → Parsed (suc d) leaves (close (join_left sha256_2 (suc d) l))
  left-Parsed d leaves left l short n p hs bits (inl e) = absurd (omega arith)
  left-Parsed d leaves left l short n p hs bits (inr e) =
      close-Parsed d l.merkle_hashes l.tx_hashes l.bits (sha256_2 (l.root ++ l.root)) hs bits n (
        subst
          (λ (gs : List Bytes).
            children sha256_2 (set_compressed_at sha256_2 d) (suc d)
              (queues (l.merkle_hashes ++ gs) (l.bits ++ bits))
            ≡ ok (join_left sha256_2 (suc d) l, queues gs bits))
          (sym e) (rw (p [] bits (inr refl))))

  -- Both subtrees: the left one is full.
  both-Parsed :
      (d : ℕ) (leaves left right : List MerkleLeaf) (l r : Subtree)
      → length left ≡ 2 ^ d
      → length leaves ≡ length left + length right
      → HasHash l.merkle_hashes
      → HasHash r.merkle_hashes
      → Parsed d left l
      → Parsed d right r
      → Parsed (suc d) leaves (close (join sha256_2 (suc d) l r))
  both-Parsed d leaves left right l r full sum n m p q hs bits c =
      close-Parsed d (l.merkle_hashes ++ r.merkle_hashes) (l.tx_hashes ++ r.tx_hashes)
        (l.bits ++ r.bits) (sha256_2 (l.root ++ r.root)) hs bits
        (append-HasHash l.merkle_hashes r.merkle_hashes n)
        (rw
          (
            append_assoc l.merkle_hashes r.merkle_hashes hs,
            append_assoc l.bits r.bits bits,
            p (r.merkle_hashes ++ hs) (r.bits ++ bits) (inl full),
          )
          (right_step (suc d) l r r.merkle_hashes hs (r.bits ++ bits) (queues hs bits)
            (set_compressed_at sha256_2 d) m (q hs bits (still c))))
    where
      still : (length leaves ≡ 2 ^ suc d) ⊎ (hs ≡ []) → (length right ≡ 2 ^ d) ⊎ (hs ≡ [])
      still (inl e) = inl (omega (arith, pow-suc 2 d))
      still (inr e) = inr e

  pub close-root :
      (t : Subtree)
      → ((close t).root ≡ t.root)
        × ((close t).depth ≡ t.depth)
        × ((close t).tx_hashes ≡ t.tx_hashes)
  close-root t = ground arith

  tree_root-leaves :
      (d : ℕ) (leaves right : List MerkleLeaf)
      → drop (2 ^ d) leaves ≡ right
      → let left = tree_root sha256_2 d (hashes_of (take (2 ^ d) leaves)) in
        tree_root sha256_2 (suc d) (hashes_of leaves)
        ≡ sha256_2 (left ++ or_left right left (tree_root sha256_2 d (hashes_of right)))
  unfolding tree_root
  tree_root-leaves d leaves [] e = rw (← map-take (2 ^ d) leaves, ← map-drop (2 ^ d) leaves, e)
  tree_root-leaves d leaves (x ∷ right) e =
      rw (← map-take (2 ^ d) leaves, ← map-drop (2 ^ d) leaves, e)

  matches-split :
      (n : ℕ) (leaves right : List MerkleLeaf)
      → drop n leaves ≡ right
      → matches leaves ≡ matches (take n leaves) ++ matches right
  matches-split n leaves right e =
      ap matches (sym (take-append-drop n leaves) ∙ ap (λ r. take n leaves ++ r) e)
      ∙ matches-append (take n leaves) right

  build_node :
      (d : ℕ) (leaves right : List MerkleLeaf) (l : Subtree)
      → length leaves ≤ 2 ^ suc d
      → drop (2 ^ d) leaves ≡ right
      → Builds d (take (2 ^ d) leaves) l
      → (0 < length right → length right ≤ 2 ^ d → (t : Subtree) × Builds d right t)
      → (t : Subtree) × Builds (suc d) leaves t
  build_node d leaves [] l q e bl br =
      let t = join_left sha256_2 (suc d) l in
      let (c0, c1, c2) = close-root t in
      (
        close t,
        record {
          built = unfold set_uncompressed_at in rw (bl.built, e);
          depth_eq = c1;
          root_eq =
              c0 ∙ ap (λ r. sha256_2 (r ++ r)) bl.root_eq ∙ sym (tree_root-leaves d leaves [] e);
          matches_eq =
              c2
              ∙ bl.matches_eq
              ∙ sym (
                  matches-split (2 ^ d) leaves [] e
                  ∙ unfold matches in append-nil (matches (take (2 ^ d) leaves)));
          has_hash = close-HasHash t bl.has_hash;
          parsed =
              left-Parsed d leaves (take (2 ^ d) leaves) l
                (omega (arith, length-drop (2 ^ d) leaves, ap length e, pow-suc 2 d, pow-pos d))
                bl.has_hash bl.parsed;
        },
      )
  build_node d leaves (x ∷ rest) l q e bl br =
      let (r, b) =
        br (omega arith) (omega (arith, length-drop (2 ^ d) leaves, ap length e, pow-suc 2 d)) in
      let t = join sha256_2 (suc d) l r in
      let (c0, c1, c2) = close-root t in
      (
        close t,
        record {
          built = unfold set_uncompressed_at in rw (bl.built, e, b.built);
          depth_eq = c1;
          root_eq =
              c0
              ∙ ap₂ (λ u v. sha256_2 (u ++ v)) bl.root_eq b.root_eq
              ∙ sym (tree_root-leaves d leaves (x ∷ rest) e);
          matches_eq =
              c2
              ∙ ap₂ (λ u v. u ++ v) bl.matches_eq b.matches_eq
              ∙ sym (matches-split (2 ^ d) leaves (x ∷ rest) e);
          has_hash = close-HasHash t (append-HasHash l.merkle_hashes r.merkle_hashes bl.has_hash);
          parsed =
              both-Parsed d leaves (take (2 ^ d) leaves) (x ∷ rest) l r
                (omega (arith, length-take (2 ^ d) leaves, length-drop (2 ^ d) leaves, ap length e))
                (omega (arith, length-take (2 ^ d) leaves, length-drop (2 ^ d) leaves, ap length e))
                bl.has_hash b.has_hash bl.parsed b.parsed;
        },
      )

  -- Building succeeds on any leaves that fit the depth.
  pub build-Builds :
      (d : ℕ) (leaves : List MerkleLeaf)
      → 0 < length leaves
      → length leaves ≤ 2 ^ d
      → (t : Subtree) × Builds d leaves t
  build-Builds zero [] p q = absurd (omega arith)
  build-Builds zero ((h, bit) ∷ []) p q = (
    one_hash zero bit h,
    record {
      built = unfold set_uncompressed_at in refl;
      depth_eq = refl;
      root_eq = unfold tree_root in refl;
      matches_eq = unfold matches in sym (append-nil (matched bit h));
      has_hash = (h, [], refl);
      parsed = λ hs bits c. unfold set_compressed_at in refl;
    },
  )
  build-Builds zero (x ∷ y ∷ rest) p q = absurd (omega arith)
  build-Builds (suc d) leaves p q =
      let (l, bl) =
        build-Builds d (take (2 ^ d) leaves) (omega (arith, length-take (2 ^ d) leaves, pow-pos d))
          (omega (arith, length-take (2 ^ d) leaves)) in
      build_node d leaves (drop (2 ^ d) leaves) l q refl bl (build-Builds d (drop (2 ^ d) leaves))
