-- ===== src/PartialMerkleTree/Merge/Step.antt =====
-- One node of `merge`, over two trees that `setUncompressed` pruned.
use m_signa.Prelude.{
  ℕ, suc, ◌≡◌, refl, sym, ap, ◌∙◌, ◌⊎◌, inl, inr, List, [], ◌∷◌, ◌++◌, Bool, true, append_assoc,
  append-nil, ◌^◌,
}
use mathlib.Core.Path.{subst}
use m_signa.Bytes.{Bytes, bytes_eq, bytes_eq_refl}
use m_signa.Result.{Result, ok, >>=-eq-ok, ok-injective}
use m_signa.PartialMerkleTree.Defs.{
  Error, Subtree, Queues, queues, Lists, lists_of, Merged, append, nothing, close, join, join_left,
  children, set_compressed_at, merge_at, merge_one, merge_both,
}

-- The queues that begin with a tree.
abbrev pub front : Subtree → List Bytes → List Bool → Queues
front t hs xs = queues (t.merkle_hashes ++ hs) (t.bits ++ xs)

-- These lists are appended, and these queues are left, in either order.
abbrev pub Walked : Result Error Merged → Lists → Queues → Queues → Type 0
Walked r l q p = (r ≡ ok (l, q, p)) ⊎ (r ≡ ok (l, p, q))

abbrev pub subtree : ℕ → List Bytes → List Bytes → List Bool → Bytes → Subtree
subtree d hs tx bs root = record {
  depth = d;
  merkle_hashes = hs;
  tx_hashes = tx;
  bits = bs;
  root = root;
}

abbrev pub inner : Lists → Lists
inner l = append (record nothing { bits = true ∷ [] }) l

module _ (sha256_2 : Bytes → Bytes) where
  -- The walk over two trees appends a third one, and takes both off the queues.
  abbrev pub Merges : ℕ → ℕ → Subtree → Subtree → Subtree → Type 0
  Merges d n t1 t2 t3 =
      (hs gs : List Bytes) (xs ys : List Bool)
      → (n ≡ 2 ^ d) ⊎ ((hs ≡ []) × (gs ≡ []))
      → Walked (merge_at sha256_2 d (front t1 hs xs) (front t2 gs ys)) (lists_of t3) (queues hs xs)
          (queues gs ys)

  one_walk :
      (d e : ℕ) (h : Bytes) (m tx : List Bytes) (bs : List Bool) (root g : Bytes)
      (hs gs : List Bytes) (xs ys : List Bool)
      → let t = subtree e (h ∷ m) tx (true ∷ bs) root in
        set_compressed_at sha256_2 (suc d) (front t hs xs) ≡ ok (t, queues hs xs)
        → root ≡ g
        → merge_one sha256_2 d (queues (h ∷ (m ++ hs)) (bs ++ xs)) g gs ys
          ≡ ok (lists_of t, queues hs xs, queues gs ys)
  unfolding set_compressed_at
  one_walk d e h m tx bs root g hs gs xs ys parsed same =
      let ((u, q), below, out) =
        >>=-eq-ok
          (children sha256_2 (set_compressed_at sha256_2 d) (suc d)
            (queues (h ∷ (m ++ hs)) (bs ++ xs)))
          _ parsed in
      let pair = ok-injective out in
      let root_g : u.root ≡ g = ap (λ (r : Subtree × Queues). r.0.root) pair ∙ same in
      let equal : bytes_eq u.root g ≡ true =
        subst (λ (x : Bytes). bytes_eq u.root x ≡ true) root_g (bytes_eq_refl u.root) in
      rw (below, equal) (ap (λ (r : Subtree × Queues). ok (lists_of r.0, r.1, queues gs ys)) pair)

  -- The four ways in which two nodes may be pruned.
  pub node_walk :
      (d e1 e2 e3 : ℕ) (h1 h2 : Bytes) (m1 m2 m3 tx1 tx2 tx3 : List Bytes) (b1 b2 b3 : List Bool)
      (r1 r2 r3 : Bytes) (hs gs : List Bytes) (xs ys : List Bool)
      → let u1 = subtree e1 (h1 ∷ m1) tx1 b1 r1 in
        let u2 = subtree e2 (h2 ∷ m2) tx2 b2 r2 in
        let u3 = subtree e3 m3 tx3 b3 r3 in
        r1 ≡ r2
        → set_compressed_at sha256_2 (suc d) (front (close u1) hs xs) ≡ ok (close u1, queues hs xs)
        → set_compressed_at sha256_2 (suc d) (front (close u2) gs ys) ≡ ok (close u2, queues gs ys)
        → (tx2 ≡ [] → close u3 ≡ close u1)
        → (tx1 ≡ [] → close u3 ≡ close u2)
        → (tx3 ≡ [] → tx1 ≡ [])
        → Walked
            (merge_both sha256_2 (merge_at sha256_2 d) (front u1 hs xs) (front u2 gs ys))
            (inner (lists_of u3))
            (queues hs xs)
            (queues gs ys)
        → Walked
            (merge_at sha256_2 (suc d) (front (close u1) hs xs) (front (close u2) gs ys))
            (lists_of (close u3))
            (queues hs xs)
            (queues gs ys)
  unfolding merge_at
  node_walk d e1 e2 e3 h1 h2 m1 m2 m3 [] [] tx3 b1 b2 b3 r1 r2 r3 hs gs xs ys re p1 p2 k2 k1 k3 w =
      let equal : bytes_eq r1 r2 ≡ true =
        subst (λ (x : Bytes). bytes_eq r1 x ≡ true) re (bytes_eq_refl r1) in
      inl (
        rw equal
          (ap (λ (t : Subtree). ok (lists_of t, queues hs xs, queues gs ys)) (sym (k2 refl))))
  node_walk d e1 e2 e3 h1 h2 m1 m2 m3 (x ∷ tx1) [] tx3 b1 b2 b3 r1 r2 r3 hs gs xs ys re p1 p2 k2 k1
        k3 w =
      inl (
        one_walk d e1 h1 m1 (x ∷ tx1) b1 r1 r2 hs gs xs ys p1 re
        ∙ ap (λ (t : Subtree). ok (lists_of t, queues hs xs, queues gs ys)) (sym (k2 refl)))
  node_walk d e1 e2 e3 h1 h2 m1 m2 m3 [] (y ∷ tx2) tx3 b1 b2 b3 r1 r2 r3 hs gs xs ys re p1 p2 k2 k1
        k3 w =
      inr (
        one_walk d e2 h2 m2 (y ∷ tx2) b2 r2 r1 gs hs ys xs p2 (sym re)
        ∙ ap (λ (t : Subtree). ok (lists_of t, queues gs ys, queues hs xs)) (sym (k1 refl)))
  node_walk d e1 e2 e3 h1 h2 m1 m2 m3 (x ∷ tx1) (y ∷ tx2) [] b1 b2 b3 r1 r2 r3 hs gs xs ys re p1 p2
        k2 k1 k3 w =
      absurd (cons_nil (k3 refl))
    where
      cons_nil : ◌≡◌ {A = List Bytes} (x ∷ tx1) [] → ⊥
      cons_nil e = cc
  node_walk d e1 e2 e3 h1 h2 m1 m2 m3 (x ∷ tx1) (y ∷ tx2) (z ∷ tx3) b1 b2 b3 r1 r2 r3 hs gs xs ys re
        p1 p2 k2 k1 k3 w =
      w

  -- Both trees have a right part.
  pub both_walk :
      (d n m : ℕ) (l1 l2 l3 r1 r2 r3 : Subtree) (hs gs : List Bytes) (xs ys : List Bool)
      → n ≡ 2 ^ d
      → (m ≡ 2 ^ d) ⊎ ((hs ≡ []) × (gs ≡ []))
      → (m ≡ 2 ^ d) ⊎ ((gs ≡ []) × (hs ≡ []))
      → Merges d n l1 l2 l3
      → Merges d m r1 r2 r3
      → Merges d m r2 r1 r3
      → Walked
          (merge_both sha256_2
            (merge_at sha256_2 d)
            (front (join sha256_2 (suc d) l1 r1) hs xs)
            (front (join sha256_2 (suc d) l2 r2) gs ys))
          (inner (lists_of (join sha256_2 (suc d) l3 r3)))
          (queues hs xs)
          (queues gs ys)
  both_walk d n m l1 l2 l3 r1 r2 r3 hs gs xs ys full last last' left right back =
      rw
        (
          append_assoc l1.merkle_hashes r1.merkle_hashes hs,
          append_assoc l2.merkle_hashes r2.merkle_hashes gs,
          append_assoc l1.bits r1.bits xs,
          append_assoc l2.bits r2.bits ys,
        )
        (elim (left (r1.merkle_hashes ++ hs) (r2.merkle_hashes ++ gs) (r1.bits ++ xs)
          (r2.bits ++ ys) (inl full)) [
            | inl e ↦ elim (right hs gs xs ys last) [
              | inl f ↦ inl (rw (e, f))
              | inr f ↦ inr (rw (e, f))
            ]
            | inr e ↦ elim (back gs hs ys xs last') [
              | inl f ↦ inr (rw (e, f))
              | inr f ↦ inl (rw (e, f))
            ]
          ])

  add_nothing : (l : Lists) → append l nothing ≡ l
  add_nothing l = rw (append-nil l.merkle_hashes, append-nil l.tx_hashes, append-nil l.bits)

  -- No right part: the second call finds both queues empty.
  pub left_walk :
      (d n : ℕ) (l1 l2 l3 : Subtree) (xs ys : List Bool)
      → Merges d n l1 l2 l3
      → Walked
          (merge_both sha256_2
            (merge_at sha256_2 d)
            (front (join_left sha256_2 (suc d) l1) [] xs)
            (front (join_left sha256_2 (suc d) l2) [] ys))
          (inner (lists_of (join_left sha256_2 (suc d) l3)))
          (queues [] xs)
          (queues [] ys)
  left_walk d n l1 l2 l3 xs ys left =
      let none : (vs ws : List Bool)
          → merge_at sha256_2 d (queues [] vs) (queues [] ws)
            ≡ ok (nothing, queues [] ws, queues [] vs) =
        λ vs ws. unfold merge_at in refl in
      let done : (q p : Queues)
          → ◌≡◌ {A = Result Error Merged} (ok (inner (append (lists_of l3) nothing), q, p))
              (ok (inner (lists_of l3), q, p)) =
        λ q p. ap (λ (l : Lists). ok (inner l, q, p)) (add_nothing (lists_of l3)) in
      elim (left [] [] xs ys (inr (refl, refl))) [
        | inl e ↦ inr (rw (e, none xs ys) (done (queues [] ys) (queues [] xs)))
        | inr e ↦ inl (rw (e, none ys xs) (done (queues [] xs) (queues [] ys)))
      ]
