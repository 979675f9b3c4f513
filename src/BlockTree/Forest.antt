-- ===== src/BlockTree/Forest.antt =====
-- The links between the headers of a block tree, and the way up from a header to the best chain.
use m_signa.Prelude.{
  ℕ, zero, suc, ◌+◌, ◌<◌, ◌≡◌, refl, sym, ap, ◌∙◌, ◌⊎◌, inl, inr, List, ◌∷◌, Bool, true, false,
  some, Bool-cases, length, arith,
}
use mathlib.Core.Path.{subst}
use m_signa.Result.{ok}
use m_signa.Bytes.{Bytes, bytes_eq_refl}
use m_signa.BlockHeader.{work_of_bits}
use m_signa.BlockTree.Defs.{ChainHeader, Map, has_child, retrace}
use m_signa.BlockTree.Links.{at_hash-some}
use m_signa.BlockTree.Shape.{Marked, Marked-some, Marked-back, Run}

-- The header `h` under the key `k` is linked to its parent: it is one higher, has some work, and is
-- among the children.
pub record Linked (s : Map Bytes ChainHeader) (k : Bytes) (h : ChainHeader) : Type 0 where
  pub parent : ChainHeader
  pub parent_eq : s h.header.prev_block_hash ≡ some parent
  pub height_eq : h.height ≡ suc parent.height
  pub work_eq : h.chain_work ≡ parent.chain_work + work_of_bits h.header.bits
  pub work_pos : 0 < work_of_bits h.header.bits
  pub child : has_child k parent.child_hashes ≡ true

-- Every header but the root is linked to its parent, and every child is a header on top.
pub record Forest (s : Map Bytes ChainHeader) : Type 0 where
  pub root : Bytes
  pub root_low : (h : ChainHeader) → s root ≡ some h → h.height ≡ 0
  pub up : (k : Bytes) (h : ChainHeader) → s k ≡ some h → (k ≡ root) ⊎ Linked s k h
  pub down :
      (k : Bytes) (h : ChainHeader) (c : Bytes)
      → s k ≡ some h
      → has_child c h.child_hashes ≡ true
      → (x : ChainHeader) × (s c ≡ some x)
        × (x.height ≡ suc h.height)
        × (x.header.prev_block_hash ≡ k)

-- Where the way up from `q` ends: at a header of the best chain, under the run of those passed.
pub record Traced (s : Map Bytes ChainHeader) (best : Bytes → Bool) (q prev : Bytes) (top : ℕ)
    (passed path : List Bytes) (fork : Bytes) : Type 0 where
  pub head : ChainHeader
  pub stored : s fork ≡ some head
  pub flagged : best fork ≡ true
  pub run : Run s (suc head.height) fork path
  pub size : head.height + length path ≡ top
  pub keeps : (j : Bytes) → has_child j passed ≡ true → has_child j path ≡ true
  pub includes : best q ≡ false → has_child q path ≡ true
  pub stays : best q ≡ true → fork ≡ q
  pub over : best q ≡ false → best prev ≡ true → fork ≡ prev

-- With more fuel than the height, the way up ends in the best chain.
pub retrace-Traced :
    (s m : Map Bytes ChainHeader) (best : Bytes → Bool) (forest : Forest s)
    → Marked s m best
    → best forest.root ≡ true
    → (fuel : ℕ) (q : Bytes) (h : ChainHeader) (passed : List Bytes) → s q ≡ some h
    → h.height < fuel
    → Run s (suc h.height) q passed
    → (path : List Bytes) × (fork : Bytes) × (retrace fuel m q passed ≡ ok (path, fork))
      × Traced s best q h.header.prev_block_hash (h.height + length passed) passed path fork
unfolding retrace
retrace-Traced s m best forest v anchored zero q h passed e low r = elim low [ ]
retrace-Traced s m best forest v anchored (suc fuel) q h passed e low r =
    let here = at_hash-some m q _ (Marked-some s m best q h v e) in
    elim (Bool-cases (best q)) [
      | inl flag ↦ (
        passed,
        q,
        rw (here, flag),
        record {
          head = h;
          stored = e;
          flagged = flag;
          run = r;
          size = refl;
          keeps = λ j p. p;
          includes = λ no_flag. cc (flag, no_flag);
          stays = λ p. refl;
          over = λ no_flag. cc (flag, no_flag);
        },
      )
      | inr no_flag ↦ elim (forest.up q h e) [
        | inl at_root ↦ absurd (cc (no_flag, anchored, ap best at_root))
        | inr l ↦
            let (path, fork, done, t) =
              retrace-Traced s m best forest v anchored fuel h.header.prev_block_hash l.parent
                (q ∷ passed) l.parent_eq (omega (arith, l.height_eq))
                (
                  h,
                  e,
                  l.height_eq,
                  refl,
                  subst (λ (n : ℕ). Run s (suc n) q passed) l.height_eq r,
                ) in
            (
              path,
              fork,
              rw (here, no_flag) done,
              record {
                head = t.head;
                stored = t.stored;
                flagged = t.flagged;
                run = t.run;
                size = omega (arith, t.size, l.height_eq);
                keeps = λ j p. t.keeps j (ground (arith, p));
                includes = λ p. t.keeps q (rw (bytes_eq_refl q));
                stays = λ p. cc (p, no_flag);
                over = λ p on_best. t.stays on_best;
              },
            )
      ]
    ]

-- A forest with other flags is a forest.
pub Linked-Marked :
    (s m : Map Bytes ChainHeader) (best : Bytes → Bool) (k : Bytes) (h : ChainHeader)
    → Marked s m best
    → Linked s k h
    → Linked m k (record h { in_best_chain = best k })
Linked-Marked s m best k h v l = record {
  parent = record l.parent { in_best_chain = best h.header.prev_block_hash };
  parent_eq = Marked-some s m best h.header.prev_block_hash l.parent v l.parent_eq;
  height_eq = l.height_eq;
  work_eq = l.work_eq;
  work_pos = l.work_pos;
  child = l.child;
}

pub Forest-Marked :
    (s m : Map Bytes ChainHeader) (best : Bytes → Bool)
    → Marked s m best
    → (f : Forest s) → (f' : Forest m) × (f'.root ≡ f.root)
Forest-Marked s m best v f = (
  record {
    root = f.root;
    root_low = λ y e.
        let (h, eh, same) = Marked-back s m best f.root y v e in
        ap (λ (z : ChainHeader). z.height) same ∙ f.root_low h eh;
    up = λ k y e.
        let (h, eh, same) = Marked-back s m best k y v e in
        elim (f.up k h eh) [
          | inl at_root ↦ inl at_root
          | inr l ↦ inr (subst (Linked m k) (sym same) (Linked-Marked s m best k h v l))
        ];
    down = λ k y c e member.
        let (h, eh, same) = Marked-back s m best k y v e in
        let (x, ex, high, on_top) = f.down k h c eh (rw same at member) in
        (
          record x { in_best_chain = best c },
          Marked-some s m best c x v ex,
          high ∙ sym (ap (λ (z : ChainHeader). suc z.height) same),
          on_top,
        );
  },
  refl,
)
