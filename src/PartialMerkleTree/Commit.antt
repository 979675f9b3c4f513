-- ===== src/PartialMerkleTree/Commit.antt =====
-- What `setCompressed` checks about the transaction hashes of a partial tree.
use m_signa.Prelude.{
  ℕ, zero, suc, ◌≡◌, ◌≢◌, refl, sym, ap, ◌∙◌, List, [], ◌∷◌, ◌++◌, true, false, ◌||◌, reverse,
  reverse-reverse, All, All-append, arith, ◌==◌, if◌then◌else◌,
}
use mathlib.Core.Path.{subst}
use m_signa.Bytes.{Bytes, bytes_eq, bytes_eq→eq}
use m_signa.Result.{Result, ok, ok-injective, ok-injective_fst, >>=-eq-ok, guard, guard-eq-ok}
use m_signa.MerkleTree.{tree_depth}
use m_signa.PartialMerkleTree.Defs.{
  Error, zero_transactions, invalid_root, Subtree, PartialMerkleTree, Queues, queues, right_part,
  children, set_compressed_at, set_compressed, unpack,
}

module _ (sha256_2 : Bytes → Bytes) where
  -- `h` is a leaf of a tree of the given depth and root: a Merkle branch.
  pub data Commits : ℕ → Bytes → Bytes → Type 0 where
    leaf : (h : Bytes) → Commits zero h h
    on_left :
        {d : ℕ} {root h : Bytes} (l r : Bytes)
        → root ≡ sha256_2 (l ++ r)
        → Commits d l h
        → Commits (suc d) root h
    on_right :
        {d : ℕ} {root h : Bytes} (l r : Bytes)
        → root ≡ sha256_2 (l ++ r)
        → Commits d r h
        → Commits (suc d) root h

  abbrev pub IsAuthentic : ℕ → Subtree → Type 0
  IsAuthentic d t = All (Commits d t.root) t.tx_hashes

  keep_left :
      (d : ℕ) (l r : Bytes) (hs : List Bytes)
      → All (Commits d l) hs
      → All (Commits (suc d) (sha256_2 (l ++ r))) hs
  keep_left d l r [] a = tt
  keep_left d l r (h ∷ hs) a = (on_left l r refl a.0, keep_left d l r hs a.1)

  keep_right :
      (d : ℕ) (l r : Bytes) (hs : List Bytes)
      → All (Commits d r) hs
      → All (Commits (suc d) (sha256_2 (l ++ r))) hs
  keep_right d l r [] a = tt
  keep_right d l r (h ∷ hs) a = (on_right l r refl a.0, keep_right d l r hs a.1)

  -- Whatever the parser of the children returns is authentic, so is the node over them.
  abbrev pub Parses : ℕ → (Queues → Result Error (Subtree × Queues)) → Type 0
  Parses d parse = (q : Queues) (t : Subtree) (q' : Queues) → parse q ≡ ok (t, q') → IsAuthentic d t

  right_part-IsAuthentic :
      (d : ℕ) (parse : Queues → Result Error (Subtree × Queues)) (l t : Subtree) (q q' : Queues)
      → Parses d parse
      → IsAuthentic d l
      → right_part sha256_2 parse (suc d) l q ≡ ok (t, q')
      → IsAuthentic (suc d) t
  right_part-IsAuthentic d parse l t (queues [] bits) q' p a e =
      subst (IsAuthentic (suc d)) (ok-injective_fst e) (keep_left d l.root l.root l.tx_hashes a)
  right_part-IsAuthentic d parse l t (queues (h ∷ hs) bits) q' p a e =
      let ((r, q''), e1, e2) = >>=-eq-ok (parse (queues (h ∷ hs) bits)) _ e in
      subst (IsAuthentic (suc d)) (ok-injective_fst e2) (
        All-append _ l.tx_hashes r.tx_hashes (keep_left d l.root r.root l.tx_hashes a)
          (keep_right d l.root r.root r.tx_hashes (p (queues (h ∷ hs) bits) r q'' e1)))

  pub children-IsAuthentic :
      (d : ℕ) (parse : Queues → Result Error (Subtree × Queues)) (t : Subtree) (q q' : Queues)
      → Parses d parse
      → children sha256_2 parse (suc d) q ≡ ok (t, q')
      → IsAuthentic (suc d) t
  children-IsAuthentic d parse t q q' p e =
      let ((l, q''), e1, e2) = >>=-eq-ok (parse q) _ e in
      right_part-IsAuthentic d parse l t q'' q' p (p q l q'' e1) e2

  -- Every hash that the parser of a compressed tree reports as a transaction is tied to its root.
  pub set_compressed_at-IsAuthentic : (d : ℕ) → Parses d (set_compressed_at sha256_2 d)
  unfolding set_compressed_at
  set_compressed_at-IsAuthentic d (queues [] bits) t q' e = cc
  set_compressed_at-IsAuthentic d (queues (h ∷ hs) []) t q' e = cc
  set_compressed_at-IsAuthentic zero (queues (h ∷ hs) (false ∷ bits)) t q' e =
      subst (IsAuthentic zero) (ok-injective_fst e) tt
  set_compressed_at-IsAuthentic zero (queues (h ∷ hs) (true ∷ bits)) t q' e =
      subst (IsAuthentic zero) (ok-injective_fst e) (leaf h, tt)
  set_compressed_at-IsAuthentic (suc d) (queues (h ∷ hs) (false ∷ bits)) t q' e =
      subst (IsAuthentic (suc d)) (ok-injective_fst e) tt
  set_compressed_at-IsAuthentic (suc d) (queues (h ∷ hs) (true ∷ bits)) t q' e =
      let ((u, q''), e1, e2) =
        >>=-eq-ok (children sha256_2 (set_compressed_at sha256_2 d) (suc d) (queues (h ∷ hs) bits))
          _ e in
      subst (IsAuthentic (suc d)) (ok-injective_fst e2) (
        children-IsAuthentic d (set_compressed_at sha256_2 d) u (queues (h ∷ hs) bits) q''
          (set_compressed_at-IsAuthentic d) e1)

  accepted_root : (m r : Bytes) → m ≢ [] → (bytes_eq m [] || bytes_eq m r) ≡ true → m ≡ r
  accepted_root [] r h e = absurd (h refl)
  accepted_root (b ∷ bs) r h e = bytes_eq→eq (b ∷ bs) r e

  -- A partial tree that `setCompressed` accepts against a given Merkle root reports only
  -- transactions that have a Merkle branch to that root, of the depth that the count implies.
  pub set_compressed-Commits :
      (n_txs : ℕ) (hashes : List Bytes) (flags : List ℕ) (merkle_root : Bytes)
      (p : PartialMerkleTree)
      → merkle_root ≢ []
      → set_compressed sha256_2 n_txs hashes flags merkle_root ≡ ok p
      → (n_txs ≢ 0) × All (Commits (tree_depth n_txs) (reverse merkle_root)) p.tree.tx_hashes
  unfolding set_compressed
  set_compressed-Commits n_txs hashes flags merkle_root p some_root e =
      let (_, g, e1) =
        >>=-eq-ok (guard (if n_txs == 0 then false else true) zero_transactions) _ e in
      let ((t, q), e2, e3) =
        >>=-eq-ok (set_compressed_at sha256_2 (tree_depth n_txs) (queues hashes (unpack flags))) _
          e1 in
      let (_, g', e4) =
        >>=-eq-ok
          (guard (bytes_eq merkle_root [] || bytes_eq merkle_root (reverse t.root)) invalid_root) _
          e3 in
      let same : merkle_root ≡ reverse t.root =
        accepted_root merkle_root (reverse t.root) some_root (guard-eq-ok _ _ g') in
      let root : t.root ≡ reverse merkle_root = sym (ap reverse same ∙ reverse-reverse t.root) in
      (
        ground (arith, guard-eq-ok (if n_txs == 0 then false else true) zero_transactions g),
        subst
            (λ (u : PartialMerkleTree).
              All (Commits (tree_depth n_txs) (reverse merkle_root)) u.tree.tx_hashes)
            (ok-injective e4)
            (subst (λ (r : Bytes). All (Commits (tree_depth n_txs) r) t.tx_hashes) root
              (set_compressed_at-IsAuthentic (tree_depth n_txs) (queues hashes (unpack flags)) t q
                e2)),
      )
