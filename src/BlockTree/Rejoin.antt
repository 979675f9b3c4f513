-- ===== src/BlockTree/Rejoin.antt =====
-- The best chain behind the last loop of `setBestChain`.
use m_signa.Prelude.{
  ℕ, suc, ◌+◌, ◌≡◌, refl, sym, ap, ◌∙◌, inl, inr, List, [], ◌∷◌, ◌++◌, Bool, true, false, ◌||◌,
  if◌then◌else◌, some, Bool-cases, length, length-append, append_assoc, get_elem?, arith,
}
use mathlib.Core.Path.{subst}
use m_signa.Result.{ok}
use m_signa.Bytes.{Bytes, bytes_eq, bytes_eq→eq}
use m_signa.BlockTree.Defs.{ChainHeader, BlockTree, Map, has_child, raise}
use m_signa.BlockTree.Links.{some-injective}
use m_signa.BlockTree.Shape.{
  Marked, Marked-ext, Run, Run-low, Run-height, Run-split, Run-replace, has_child-append,
}
use m_signa.BlockTree.Forest.{Forest}
use m_signa.BlockTree.Descend.{without}
use m_signa.BlockTree.Raise.{raise-Raised, placed, Fits, placed-Fits}
use m_signa.BlockTree.Reorg.{Charted}

new_flag :
    (a b d p : Bool)
    → (d ≡ true → a ≡ false)
    → (d ≡ true → b ≡ false)
    → (if p then true else (if d then false else (a || (b || d)))) ≡ (a || (b || p))
new_flag a b true p h k = rw (h refl, k refl) (ground arith)
new_flag a b false p h k = ground arith

kept : (a b d p : Bool) → (a || (b || d)) ≡ true → d ≡ false → (a || (b || p)) ≡ true
kept a b d p h e = ground (arith, h, e)

placed_all :
    (pre : List Bytes) (fork k : Bytes) (path : List Bytes) (heights : Map ℕ Bytes) (i n : ℕ)
    → n ≡ 0 + length pre
    → has_child k path ≡ true
    → Fits (pre ++ (fork ∷ [])) heights
    → placed (suc n) path heights i ≡ get_elem? (pre ++ (fork ∷ path)) i
placed_all pre fork k [] heights i n low member fits = cc
placed_all pre fork k (j ∷ path) heights i n low member fits =
    let size : length (pre ++ (fork ∷ [])) ≡ suc n =
      omega (arith, length-append pre (fork ∷ []), low) in
    subst
      (λ (m : ℕ). placed m (j ∷ path) heights i ≡ get_elem? ((pre ++ (fork ∷ [])) ++ (j ∷ path)) i)
      size (placed-Fits path (pre ++ (fork ∷ [])) j heights i fits)
    ∙ ap (λ (l : List Bytes). get_elem? l i) (append_assoc pre (fork ∷ []) (j ∷ path))

module _ (s : Map Bytes ChainHeader) (forest : Forest s) where
  -- What `setBestChain` leaves, for the new header `h` under the key `k`.
  pub record Moved (t : BlockTree) (k : Bytes) (h : ChainHeader) (t' : BlockTree) : Type 0 where
    pub chain : List Bytes
    pub charted : Charted s chain t'
    pub member : has_child k chain ≡ true
    pub size : length chain ≡ suc h.height
    pub anchored : has_child forest.root chain ≡ true
    pub count_eq : t'.count ≡ t.count
    pub total_eq : t'.total_work ≡ h.chain_work
    pub head_eq : t'.head ≡ some k

  -- The chain up to the fork, and the headers passed behind it.
  joined-Charted :
      (chain pre post path : List Bytes) (t t' : BlockTree) (fork : Bytes) (f : ChainHeader)
      → Charted s chain t
      → chain ≡ pre ++ (fork ∷ post)
      → s fork ≡ some f
      → Run s (suc f.height) fork path
      → Marked s t'.headers
          (λ j. if has_child j path then true else without (λ i. has_child i chain) post j)
      → ((i : ℕ) → t'.heights i ≡ get_elem? (pre ++ (fork ∷ path)) i)
      → t'.next_height ≡ length (pre ++ (fork ∷ path))
      → Charted s (pre ++ (fork ∷ path)) t'
  joined-Charted chain pre post path t t' fork f c shape ef run v heights next =
      let whole = subst (Run s 0 c.origin) shape c.run in
      let (low, tail) = Run-split s 0 c.origin pre post fork f whole ef in
      record {
        origin = c.origin;
        run = Run-replace s 0 c.origin pre post path fork f whole ef run;
        marked =
            Marked-ext s t'.headers _ (λ j. has_child j (pre ++ (fork ∷ path))) v
              (λ j x ex.
                rw
                  (
                    ap (has_child j) shape,
                    has_child-append j pre (fork ∷ post),
                    has_child-append j pre (fork ∷ path),
                  )
                  (new_flag (has_child j pre) (bytes_eq j fork) (has_child j post)
                    (has_child j path) (λ after. before j x whole low tail ex after)
                    (λ after. not_fork j x tail ex after)));
        heights_eq = heights;
        next_height_eq = next;
      }
    where
      before :
          (j : Bytes) (x : ChainHeader)
          → Run s 0 c.origin (pre ++ (fork ∷ post))
          → f.height ≡ 0 + length pre
          → Run s (suc f.height) fork post
          → s j ≡ some x
          → has_child j post ≡ true
          → has_child j pre ≡ false
      before j x whole low tail ex after = elim (Bool-cases (has_child j pre)) [
        | inl early ↦
            let (y, ey, lo, hi) = Run-height s (suc f.height) fork post j tail after in
            let same : y ≡ x = some-injective (sym ey ∙ ex) in
            absurd (
              omega (
                arith,
                Run-low s 0 c.origin pre (fork ∷ post) j x whole early ex,
                low,
                lo,
                ap (λ (z : ChainHeader). z.height) same,
              ))
        | inr no_pre ↦ no_pre
      ]

      not_fork :
          (j : Bytes) (x : ChainHeader)
          → Run s (suc f.height) fork post
          → s j ≡ some x
          → has_child j post ≡ true
          → bytes_eq j fork ≡ false
      not_fork j x tail ex after = elim (Bool-cases (bytes_eq j fork)) [
        | inl same ↦
            let (y, ey, lo, hi) = Run-height s (suc f.height) fork post j tail after in
            let y_f : y ≡ f = some-injective (sym ey ∙ ap s (bytes_eq→eq j fork same) ∙ ef) in
            absurd (omega (arith, lo, ap (λ (z : ChainHeader). z.height) y_f))
        | inr other ↦ other
      ]

  -- The root stays in the chain up to the fork.
  keeps-root :
      (origin : Bytes) (pre post path : List Bytes) (fork : Bytes) (f : ChainHeader)
      → Run s 0 origin (pre ++ (fork ∷ post))
      → s fork ≡ some f
      → has_child forest.root (pre ++ (fork ∷ post)) ≡ true
      → has_child forest.root (pre ++ (fork ∷ path)) ≡ true
  keeps-root origin pre post path fork f whole ef anchored =
      let (low, tail) = Run-split s 0 origin pre post fork f whole ef in
      let no_later : has_child forest.root post ≡ false =
        elim (Bool-cases (has_child forest.root post)) [
          | inl late ↦
              let (y, ey, lo, hi) = Run-height s (suc f.height) fork post forest.root tail late in
              absurd (omega (arith, lo, forest.root_low y ey))
          | inr no_late ↦ no_late
        ] in
      rw (has_child-append forest.root pre (fork ∷ path)) (
        kept (has_child forest.root pre) (bytes_eq forest.root fork) (has_child forest.root post)
          (has_child forest.root path)
          (sym (has_child-append forest.root pre (fork ∷ post)) ∙ anchored) no_later)

  -- The last loop of `setBestChain`, once nothing behind the fork is in the best chain.
  pub finish-Moved :
      (chain pre post path : List Bytes) (t u : BlockTree) (fork k : Bytes) (f h : ChainHeader)
      → Charted s chain t
      → chain ≡ pre ++ (fork ∷ post)
      → s fork ≡ some f
      → has_child forest.root chain ≡ true
      → Run s (suc f.height) fork path
      → f.height + length path ≡ h.height
      → has_child k path ≡ true
      → Marked s u.headers (without (λ j. has_child j chain) post)
      → Fits (pre ++ (fork ∷ [])) u.heights
      → u.count ≡ t.count
      → (r : Map Bytes ChainHeader × Map ℕ Bytes) × (raise u.headers u.heights path ≡ ok r)
        × Moved t k h (record u {
          headers = r.0;
          heights = r.1;
          next_height = h.height + 1;
          total_work = h.chain_work;
          head = some k;
        })
  finish-Moved chain pre post path t u fork k f h c shape ef anchored run size member v fits count =
      let whole = subst (Run s 0 c.origin) shape c.run in
      let low = (Run-split s 0 c.origin pre post fork f whole ef).0 in
      let (r, done, x) =
        raise-Raised s u.headers (without (λ j. has_child j chain) post) u.heights (suc f.height)
          fork path v run in
      let long : length (pre ++ (fork ∷ path)) ≡ suc h.height =
        omega (arith, length-append pre (fork ∷ path), low, size) in
      let t' : BlockTree = record u {
        headers = r.0;
        heights = r.1;
        next_height = h.height + 1;
        total_work = h.chain_work;
        head = some k;
      } in
      (
        r,
        done,
        record {
          chain = pre ++ (fork ∷ path);
          charted =
              joined-Charted chain pre post path t t' fork f c shape ef run x.marked
                (λ i.
                  x.heights_eq i ∙ placed_all pre fork k path u.heights i f.height low member fits)
                (omega (arith, long));
          member = rw (has_child-append k pre (fork ∷ path)) (ground (arith, member));
          size = long;
          anchored = keeps-root c.origin pre post path fork f whole ef (rw shape at anchored);
          count_eq = count;
          total_eq = refl;
          head_eq = refl;
        },
      )
