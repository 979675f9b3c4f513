-- ===== src/BlockTree/Reorg.antt =====
-- `unsetBestChain` and `setBestChain` on a block tree whose flags describe one chain.
use m_signa.Prelude.{
  ℕ, suc, ◌+◌, ◌<◌, ◌≡◌, refl, sym, ap, ◌∙◌, inl, inr, List, [], ◌∷◌, ◌++◌, Bool, true, false, ◌||◌,
  ◌==◌, if◌then◌else◌, some, Bool-cases, length, length-append, get_elem?, arith,
}
use mathlib.Core.Path.{subst}
use m_signa.Result.{ok}
use m_signa.Bytes.{Bytes, bytes_eq, bytes_eq_refl}
use m_signa.BlockTree.Defs.{
  ChainHeader, BlockTree, Event, Map, has_child, mark, at_hash, lower, unset_best_chain,
  removed_best,
}
use m_signa.BlockTree.Links.{at_hash-some, some-injective}
use m_signa.BlockTree.Shape.{
  bytes_eq_comm, Marked, Marked-some, Marked-ext, mark-Marked, Run, Run-low, ahead, Run-split,
  has_child-append,
}
use m_signa.BlockTree.Forest.{Forest}
use m_signa.BlockTree.Descend.{masked, Above, without, cleared, next-Above, descend-Descended}

-- The flags and the height map describe the chain `chain` of the headers `s`.
pub record Charted (s : Map Bytes ChainHeader) (chain : List Bytes) (t : BlockTree) : Type 0 where
  pub origin : Bytes
  pub run : Run s 0 origin chain
  pub marked : Marked s t.headers (λ j. has_child j chain)
  pub heights_eq : (i : ℕ) → t.heights i ≡ get_elem? chain i
  pub next_height_eq : t.next_height ≡ length chain

high_test : (n m : ℕ) → n ≡ suc m → (if n == 0 then false else true) ≡ true
high_test n m e = ground arith

module _ (s : Map Bytes ChainHeader) (forest : Forest s) where
  -- The chain up to `fork`, and what follows there.
  pub fork-Above :
      (chain pre rest : List Bytes) (c : Bytes) (t : BlockTree) (fork : Bytes) (f : ChainHeader)
      → Charted s chain t
      → chain ≡ pre ++ (fork ∷ (c ∷ rest))
      → s fork ≡ some f
      → ((j : Bytes) (x : ChainHeader)
          → s j ≡ some x
          → has_child j chain ≡ true
          → suc x.height ≡ length chain
          → f.height < x.height
          → x.child_hashes ≡ [])
      → Above s (λ j. has_child j chain) fork f (c ∷ rest)
  fork-Above chain pre rest c t fork f d shape ef leaf =
      let whole = subst (Run s 0 d.origin) shape d.run in
      let (low, run) = Run-split s 0 d.origin pre (c ∷ rest) fork f whole ef in
      let size : length chain ≡ length pre + suc (suc (length rest)) =
        omega (arith, ap length shape, length-append pre (fork ∷ (c ∷ rest))) in
      let members =
        λ (j : Bytes). ap (has_child j) shape ∙ has_child-append j pre (fork ∷ (c ∷ rest)) in
      record {
        stored = ef;
        run = run;
        flagged = λ j p. ground (arith, members j, p);
        only = λ j x ex flag above. only_above j x whole ex (sym (members j) ∙ flag) low above;
        leaf =
            λ j x ex p high. leaf j x ex (ground (arith, members j, p)) (omega arith) (omega arith);
      }
    where
      only_above :
          (j : Bytes) (x : ChainHeader)
          → Run s 0 d.origin (pre ++ (fork ∷ (c ∷ rest)))
          → s j ≡ some x
          → (has_child j pre || has_child j (fork ∷ (c ∷ rest))) ≡ true
          → f.height ≡ 0 + length pre
          → f.height < x.height
          → has_child j (c ∷ rest) ≡ true
      only_above j x whole ex p low above = elim (Bool-cases (has_child j pre)) [
        | inl early ↦ absurd (
            omega
              (arith, Run-low s 0 d.origin pre (fork ∷ (c ∷ rest)) j x whole early ex, low, above))
        | inr late ↦ ahead j fork (c ∷ rest) (rw late at p) (λ same.
            let x_f : x ≡ f = some-injective (sym ex ∙ ap s same ∙ ef) in
            omega (arith, ap (λ (y : ChainHeader). y.height) x_f, above))
      ]

  -- `unsetBestChain` of the header that follows `fork` takes it and all that follow it from the best
  -- chain.
  pub unset-Unset :
      (best : Bytes → Bool) (t : BlockTree) (fork c : Bytes) (f x : ChainHeader) (rest : List Bytes)
      → Marked s t.headers best
      → best fork ≡ true
      → Above s best fork f (c ∷ rest)
      → s c ≡ some x
      → x.height ≡ suc f.height
      → x.header.prev_block_hash ≡ fork
      → length rest < t.next_height
      → (t' : BlockTree) × (events : List Event) × (unset_best_chain t c ≡ ok (t', events))
        × Marked s t'.headers (without best (c ∷ rest))
        × ((i : ℕ) → t'.heights i ≡ cleared x.height (length rest) t.heights i)
        × (t'.count ≡ t.count)
  unfolding unset_best_chain lower
  unset-Unset best t fork c f x rest v on_fork a ex high on_top low =
      let flag = a.flagged c (rw (bytes_eq_refl c)) in
      let here = at_hash-some t.headers c _ (Marked-some s t.headers best c x v ex) in
      let parent : at_hash t.headers x.header.prev_block_hash
          ≡ ok (record f { in_best_chain = best fork }) =
        subst (λ (p : Bytes). at_hash t.headers p ≡ ok (record f { in_best_chain = best fork }))
          (sym on_top)
          (at_hash-some t.headers fork _ (Marked-some s t.headers best fork f v a.stored)) in
      let (r, done, d) =
        descend-Descended s forest rest (suc t.next_height)
          (mark c (record x { in_best_chain = true }) false t.headers)
          (λ j. if bytes_eq c j then false else best j) t.heights c x
          (mark-Marked s t.headers best c x false true v ex)
          (next-Above s forest best fork c f x rest a ex high) (omega arith) in
      (
        record t {
          headers = r.0;
          heights = r.1;
          next_height = f.height + 1;
          total_work = f.chain_work;
        },
        removed_best c ∷ r.2,
        rw (here, flag, high_test x.height f.height high, parent, on_fork, done),
        Marked-ext s r.0 _ (without best (c ∷ rest)) d.marked (λ j y ey.
            masked (bytes_eq c j) (bytes_eq j c) (has_child j rest) (best j) (bytes_eq_comm c j)),
        d.heights_eq,
        refl,
      )
