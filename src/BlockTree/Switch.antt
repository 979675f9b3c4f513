-- ===== src/BlockTree/Switch.antt =====
-- `setBestChain` on a block tree whose flags describe one chain.
use m_signa.Prelude.{
  ℕ, suc, ◌+◌, ◌<◌, ◌≡◌, refl, sym, ap, ◌∙◌, ◌⊎◌, inl, inr, List, [], ◌∷◌, ◌++◌, Bool, true, false,
  ◌&&◌, ltb, leb, lt→ltb, none, some, Bool-cases, length, length-append, append_assoc, get_elem?,
  arith,
}
use mathlib.Core.Path.{subst}
use m_signa.Result.{ok}
use m_signa.Bytes.{Bytes, bytes_eq_refl}
use m_signa.BlockTree.Defs.{
  ChainHeader, BlockTree, Event, Map, has_child, switch, set_best_chain, raised,
}
use m_signa.BlockTree.Links.{at_hash-some, some-injective}
use m_signa.BlockTree.Shape.{
  Marked-some, Run, Run-height, Run-split, has_child-split, first_best-none, first_best-some,
}
use m_signa.BlockTree.Forest.{Forest, Traced, retrace-Traced}
use m_signa.BlockTree.Descend.{Above, cleared, best_children, run-child}
use m_signa.BlockTree.Raise.{Fits, get_elem?-append, get_elem?-none}
use m_signa.BlockTree.Reorg.{Charted, fork-Above, unset-Unset}
use m_signa.BlockTree.Rejoin.{Moved, finish-Moved}

-- The heights of a chain that ends.
pub whole-Fits :
    (chain : List Bytes) (heights : Map ℕ Bytes)
    → ((i : ℕ) → heights i ≡ get_elem? chain i)
    → Fits chain heights
whole-Fits chain heights e = record {
  inside = λ i h. e i;
  behind = λ i h. e i ∙ get_elem?-none chain i (omega arith);
}

kept_below : (low n i : ℕ) → i < low → (ltb low i && leb i (low + n)) ≡ false
kept_below low n i h = ground arith

-- The heights after those behind `front` were taken away, but for the first.
cleared-Fits :
    (front post : List Bytes) (n : ℕ) (old heights : Map ℕ Bytes)
    → length post ≡ suc n
    → ((i : ℕ) → old i ≡ get_elem? (front ++ post) i)
    → ((i : ℕ) → heights i ≡ cleared (length front) n old i)
    → Fits front heights
cleared-Fits front post n old heights size e c = record {
  inside = λ i h.
      c i
      ∙ rw (kept_below (length front) n i h)
          (e i ∙ rw (get_elem?-append front post i, lt→ltb i (length front) h));
  behind = λ i h. c i ∙ above i h (Bool-cases (ltb (length front) i && leb i (length front + n)));
}
  where
    above :
        (i : ℕ)
        → length front < i
        → ((ltb (length front) i && leb i (length front + n)) ≡ true)
          ⊎ ((ltb (length front) i && leb i (length front + n)) ≡ false)
        → cleared (length front) n old i ≡ none
    above i h (inl gone) = rw gone
    above i h (inr stays) =
        let far : length front + n < i = ground (arith, stays, h) in
        rw stays (
          e i
          ∙ get_elem?-none (front ++ post) i (omega (arith, length-append front post, size, far)))

module _ (s : Map Bytes ChainHeader) (forest : Forest s) where
  -- The end of the best chain has no flagged child.
  ends :
      (chain pre : List Bytes) (t : BlockTree) (fork : Bytes) (f : ChainHeader)
      → Charted s chain t
      → chain ≡ pre ++ (fork ∷ [])
      → s fork ≡ some f
      → (j : Bytes) → has_child j f.child_hashes ≡ true
      → (y : ChainHeader) × (s j ≡ some y) × (has_child j chain ≡ false)
  ends chain pre t fork f d shape ef j member =
      let (y, ey, high, on_top) = forest.down fork f j ef member in
      let low =
        (Run-split s 0 d.origin pre [] fork f (subst (Run s 0 d.origin) shape d.run) ef).0 in
      let size = ap length shape ∙ length-append pre (fork ∷ []) in
      (
        y,
        ey,
        elim (Bool-cases (has_child j chain)) [
          | inl inside ↦
              let (z, ez, lo, hi) = Run-height s 0 d.origin chain j d.run inside in
              let z_y : z ≡ y = some-injective (sym ez ∙ ey) in
              absurd (omega (arith, low, size, hi, high, ap (λ (x : ChainHeader). x.height) z_y))
          | inr outside ↦ outside
        ],
      )

  -- Nothing follows the fork: the new headers go on top of the old tip.
  extend-Moved :
      (chain pre path : List Bytes) (t : BlockTree) (fork k : Bytes) (f h : ChainHeader)
      → Charted s chain t
      → chain ≡ pre ++ (fork ∷ [])
      → has_child forest.root chain ≡ true
      → Traced s (λ j. has_child j chain) k h.header.prev_block_hash (h.height + 0) [] path fork
      → s fork ≡ some f
      → has_child k path ≡ true
      → Run s (suc f.height) fork path
      → f.height + length path ≡ h.height
      → (t' : BlockTree) × (events : List Event) × (switch t k
            (record h { in_best_chain = has_child k chain })
            path
            fork
          ≡ ok (t', events))
        × Moved s forest t k h t'
  unfolding switch
  extend-Moved chain pre path t fork k f h d shape anchored tr ef member run size =
      let best : Bytes → Bool = λ j. has_child j chain in
      let at_fork =
        at_hash-some t.headers fork _ (Marked-some s t.headers best fork f d.marked ef) in
      let found =
        first_best-none s t.headers best f.child_hashes d.marked
          (ends chain pre t fork f d shape ef) in
      let (r, done, m) =
        finish-Moved s forest chain pre [] path t t fork k f h d shape ef anchored run size member
          d.marked
          (subst (λ (l : List Bytes). Fits l t.heights) shape
            (whole-Fits chain t.heights d.heights_eq))
          refl in
      (_, [] ++ raised path, rw (at_fork, found, done), m)

  -- A run follows the fork in the old best chain.
  reorganize-Moved :
      (chain pre rest path : List Bytes) (t : BlockTree) (fork c k : Bytes) (f h : ChainHeader)
      → Charted s chain t
      → chain ≡ pre ++ (fork ∷ (c ∷ rest))
      → has_child forest.root chain ≡ true
      → s fork ≡ some f
      → has_child fork chain ≡ true
      → Above s (λ j. has_child j chain) fork f (c ∷ rest)
      → has_child k path ≡ true
      → Run s (suc f.height) fork path
      → f.height + length path ≡ h.height
      → (t' : BlockTree) × (events : List Event) × (switch t k
            (record h { in_best_chain = has_child k chain })
            path
            fork
          ≡ ok (t', events))
        × Moved s forest t k h t'
  unfolding switch
  reorganize-Moved chain pre rest path t fork c k f h d shape anchored ef flag a member run size =
      let best : Bytes → Bool = λ j. has_child j chain in
      let (x, ec, high, on_top, behind_c) = a.run in
      let low =
        (Run-split s 0 d.origin pre (c ∷ rest) fork f (subst (Run s 0 d.origin) shape d.run)
          ef).0 in
      let long : length chain ≡ length pre + suc (suc (length rest)) =
        omega (arith, ap length shape, length-append pre (fork ∷ (c ∷ rest))) in
      let at_fork =
        at_hash-some t.headers fork _ (Marked-some s t.headers best fork f d.marked ef) in
      let found =
        first_best-some s t.headers best f.child_hashes c x d.marked ec
          (a.flagged c (rw (bytes_eq_refl c))) (run-child s forest fork c f x ef ec high on_top)
          (best_children s forest best fork c f rest a) in
      let (u, events, unset, v, heights, count) =
        unset-Unset s forest best t fork c f x rest d.marked flag a ec high on_top
          (omega (arith, d.next_height_eq, long)) in
      let front : length (pre ++ (fork ∷ [])) ≡ x.height =
        omega (arith, length-append pre (fork ∷ []), low, high) in
      let fits : Fits (pre ++ (fork ∷ [])) u.heights =
        cleared-Fits (pre ++ (fork ∷ [])) (c ∷ rest) (length rest) t.heights u.heights refl
          (λ i.
            d.heights_eq i
            ∙ ap (λ (l : List Bytes). get_elem? l i)
                (shape ∙ sym (append_assoc pre (fork ∷ []) (c ∷ rest))))
          (λ i. heights i ∙ ap (λ (n : ℕ). cleared n (length rest) t.heights i) (sym front)) in
      let (r, done, m) =
        finish-Moved s forest chain pre (c ∷ rest) path t u fork k f h d shape ef anchored run size
          member v fits count in
      (_, events ++ raised path, rw (at_fork, found, unset, done), m)

  -- `setBestChain` of a header outside the best chain always returns, with the header as the tip.
  pub set_best_chain-Moved :
      (chain : List Bytes) (t : BlockTree) (k : Bytes) (h : ChainHeader)
      → Charted s chain t
      → has_child forest.root chain ≡ true
      → s k ≡ some h
      → has_child k chain ≡ false
      → ((j : Bytes) (x : ChainHeader)
          → s j ≡ some x
          → has_child j chain ≡ true
          → suc x.height ≡ length chain
          → (h.header.prev_block_hash ≡ j) ⊎ (x.child_hashes ≡ []))
      → (t' : BlockTree) × (events : List Event) × (set_best_chain t k ≡ ok (t', events))
        × Moved s forest t k h t'
  unfolding set_best_chain
  set_best_chain-Moved chain t k h d anchored ek outside leaf =
      let best : Bytes → Bool = λ j. has_child j chain in
      let at_k = at_hash-some t.headers k _ (Marked-some s t.headers best k h d.marked ek) in
      let (path, fork, done, tr) =
        retrace-Traced s t.headers best forest d.marked anchored (suc h.height) k h [] ek
          (omega arith) _ in
      let (pre, post, shape) = has_child-split fork chain tr.flagged in
      let (t', events, e, m) = split path fork pre post tr shape in
      (t', events, rw (at_k, outside, done) (rw outside at e), m)
    where
      no_child :
          (f x : ChainHeader) (fork j : Bytes) (path : List Bytes)
          → Traced s (λ i. has_child i chain) k h.header.prev_block_hash (h.height + 0) [] path fork
          → s fork ≡ some f
          → s j ≡ some x
          → has_child j chain ≡ true
          → f.height < x.height
          → (h.header.prev_block_hash ≡ j) ⊎ (x.child_hashes ≡ [])
          → x.child_hashes ≡ []
      no_child f x fork j path tr ef ex member above (inr leaf_j) = leaf_j
      no_child f x fork j path tr ef ex member above (inl on_j) =
          let at_fork : fork ≡ j =
            tr.over outside (ap (λ (i : Bytes). has_child i chain) on_j ∙ member) ∙ on_j in
          let f_x : f ≡ x = some-injective (sym ef ∙ ap s at_fork ∙ ex) in
          absurd (omega (arith, above, ap (λ (y : ChainHeader). y.height) f_x))

      split :
          (path : List Bytes) (fork : Bytes) (pre post : List Bytes)
          → Traced s (λ i. has_child i chain) k h.header.prev_block_hash (h.height + 0) [] path fork
          → chain ≡ pre ++ (fork ∷ post)
          → (t' : BlockTree) × (events : List Event) × (switch t k
                (record h { in_best_chain = has_child k chain })
                path
                fork
              ≡ ok (t', events))
            × Moved s forest t k h t'
      split path fork pre [] tr shape =
          extend-Moved chain pre path t fork k tr.head h d shape anchored tr tr.stored
            (tr.includes outside) tr.run (omega (arith, tr.size))
      split path fork pre (c ∷ rest) tr shape =
          reorganize-Moved chain pre rest path t fork c k tr.head h d shape anchored tr.stored
            tr.flagged
            (fork-Above s forest chain pre rest c t fork tr.head d shape tr.stored
              (λ j x ex member high above.
                no_child tr.head x fork j path tr tr.stored ex member above
                  (leaf j x ex member high)))
            (tr.includes outside) tr.run (omega (arith, tr.size))
