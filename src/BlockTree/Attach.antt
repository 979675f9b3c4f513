-- ===== src/BlockTree/Attach.antt =====
-- The header map of `insertHeader` after the new header was stored under its parent.
use m_signa.Prelude.{
  ℕ, suc, ◌+◌, ◌<◌, ◌≡◌, refl, sym, ap, ◌∙◌, ◌⊎◌, inl, inr, List, [], ◌∷◌, Bool, true, false,
  Option, none, some, Bool-cases, arith,
}
use mathlib.Core.Path.{subst}
use m_signa.Bytes.{Bytes, bytes_eq, bytes_eq→eq, bytes_eq_refl}
use m_signa.BlockHeader.{BlockHeader, work_of_bits}
use m_signa.BlockTree.Defs.{ChainHeader, BlockTree, has_child, insert_hash, attach}
use m_signa.BlockTree.Links.{some-injective}
use m_signa.BlockTree.BestChain.{child_of, attach_stored}
use m_signa.BlockTree.Shape.{set_flag, Marked, Run}
use m_signa.BlockTree.Forest.{Linked, Forest}
use m_signa.BlockTree.Reorg.{Charted}

-- The parent, with the new child.
abbrev pub parent_of : Bytes → ChainHeader → ChainHeader
parent_of k parent = record parent { child_hashes = insert_hash k parent.child_hashes }

has_child-insert_hash : (k : Bytes) (cs : List Bytes) → has_child k (insert_hash k cs) ≡ true
has_child-insert_hash k [] = rw (bytes_eq_refl k)
has_child-insert_hash k (c ∷ cs) = elim (Bool-cases (bytes_eq k c)) [
  | inl same ↦ rw (same, same)
  | inr other ↦ rw (other, other) (has_child-insert_hash k cs)
]

insert_hash-keeps :
    (j k : Bytes) (cs : List Bytes) → has_child j cs ≡ true → has_child j (insert_hash k cs) ≡ true
insert_hash-keeps j k [] e = cc
insert_hash-keeps j k (c ∷ cs) e = elim (Bool-cases (bytes_eq k c)) [
  | inl same ↦ rw same e
  | inr other ↦ rw other (elim (Bool-cases (bytes_eq j c)) [
    | inl here ↦ rw here
    | inr later ↦ rw later (insert_hash-keeps j k cs (rw later at e))
  ])
]

insert_hash-new :
    (j k : Bytes) (cs : List Bytes)
    → has_child j (insert_hash k cs) ≡ true
    → (j ≡ k) ⊎ (has_child j cs ≡ true)
insert_hash-new j k [] e = elim (Bool-cases (bytes_eq j k)) [
  | inl same ↦ inl (bytes_eq→eq j k same)
  | inr other ↦ cc (e, rw other at e)
]
insert_hash-new j k (c ∷ cs) e = elim (Bool-cases (bytes_eq k c)) [
  | inl same ↦ inr (rw same at e)
  | inr other ↦ elim (Bool-cases (bytes_eq j c)) [
    | inl here ↦ inr (rw here)
    | inr later ↦ elim (insert_hash-new j k cs (rw later at (rw other at e))) [
      | inl j_k ↦ inl j_k
      | inr inside ↦ inr (rw later inside)
    ]
  ]
]

-- What is stored after the step.
pub attach_back :
    (t : BlockTree) (k : Bytes) (header : BlockHeader) (parent : ChainHeader) (j : Bytes)
    (y : ChainHeader)
    → (attach t k header parent).headers j ≡ some y
    → ((j ≡ k) × (y ≡ child_of header parent))
      ⊎ (((j ≡ header.prev_block_hash) × (y ≡ parent_of k parent)) ⊎ (t.headers j ≡ some y))
unfolding attach
attach_back t k header parent j y e = elim (Bool-cases (bytes_eq header.prev_block_hash j)) [
  | inl on_parent ↦ inr (
      inl (
        sym (bytes_eq→eq header.prev_block_hash j on_parent),
        sym (some-injective (rw on_parent at e)),
      ))
  | inr off ↦ elim (Bool-cases (bytes_eq k j)) [
    | inl new ↦ inl (sym (bytes_eq→eq k j new), sym (some-injective (rw new at (rw off at e))))
    | inr other ↦ inr (inr (rw other at (rw off at e)))
  ]
]

module _ (t : BlockTree) (k : Bytes) (header : BlockHeader) (parent : ChainHeader) where
  -- Every header of before is there, with its children.
  pub attach_keeps :
      t.headers k ≡ none
      → t.headers header.prev_block_hash ≡ some parent
      → (j : Bytes) (x : ChainHeader) → t.headers j ≡ some x
      → (cs : List Bytes) × ((attach t k header parent).headers j
          ≡ some (record x { child_hashes = cs }))
        × ((c : Bytes) → has_child c x.child_hashes ≡ true → has_child c cs ≡ true)
  unfolding attach
  attach_keeps new known j x e = elim (Bool-cases (bytes_eq header.prev_block_hash j)) [
    | inl on_parent ↦
        let same : parent ≡ x =
          some-injective
            (sym known ∙ ap t.headers (bytes_eq→eq header.prev_block_hash j on_parent) ∙ e) in
        (
          insert_hash k x.child_hashes,
          rw on_parent (
              ap
                (λ (y : ChainHeader).
                  some (record y { child_hashes = insert_hash k y.child_hashes }))
                same),
          λ c p. insert_hash-keeps c k x.child_hashes p,
        )
    | inr off ↦ elim (Bool-cases (bytes_eq k j)) [
      | inl new_key ↦ cc (new, e, ap t.headers (bytes_eq→eq k j new_key))
      | inr other ↦ (x.child_hashes, rw (off, other) e, λ c p. p)
    ]
  ]

  pub attach_stored_parent :
      (attach t k header parent).headers header.prev_block_hash ≡ some (parent_of k parent)
  unfolding attach
  attach_stored_parent = rw (bytes_eq_refl header.prev_block_hash)

  keeps_Linked :
      t.headers k ≡ none
      → t.headers header.prev_block_hash ≡ some parent
      → (j : Bytes) (x y : ChainHeader) → y.header ≡ x.header
      → y.height ≡ x.height
      → y.chain_work ≡ x.chain_work
      → Linked t.headers j x
      → Linked (attach t k header parent).headers j y
  keeps_Linked new known j x y same_header same_height same_work l =
      let (cs, e, inside) = attach_keeps new known x.header.prev_block_hash l.parent l.parent_eq in
      record {
        parent = record l.parent { child_hashes = cs };
        parent_eq =
            ap (λ (h : BlockHeader). (attach t k header parent).headers h.prev_block_hash)
              same_header
            ∙ e;
        height_eq = same_height ∙ l.height_eq;
        work_eq =
            same_work
            ∙ l.work_eq
            ∙ ap (λ (h : BlockHeader). l.parent.chain_work + work_of_bits h.bits) (sym same_header);
        work_pos =
            subst (λ (h : BlockHeader). 0 < work_of_bits h.bits) (sym same_header) l.work_pos;
        child = inside j l.child;
      }

  -- The tree is still linked.
  pub attach-Forest :
      (forest : Forest t.headers) (r : ChainHeader)
      → t.headers forest.root ≡ some r
      → t.headers k ≡ none
      → t.headers header.prev_block_hash ≡ some parent
      → bytes_eq header.prev_block_hash k ≡ false
      → 0 < work_of_bits header.bits
      → (f : Forest (attach t k header parent).headers) × (f.root ≡ forest.root)
  attach-Forest forest r er new known apart work = (
    record {
      root = forest.root;
      root_low = λ y e. elim (attach_back t k header parent forest.root y e) [
        | inl (at_new, same) ↦ cc (er, new, ap t.headers at_new)
        | inr (inl (on_parent, same)) ↦
            ap (λ (z : ChainHeader). z.height) same
            ∙ forest.root_low parent (ap t.headers on_parent ∙ known)
        | inr (inr old) ↦ forest.root_low y old
      ];
      up = λ j y e. elim (attach_back t k header parent j y e) [
        | inl (at_new, same) ↦ inr (
            subst (λ (z : ChainHeader). Linked (attach t k header parent).headers j z) (sym same)
              (subst
                (λ (i : Bytes).
                  Linked (attach t k header parent).headers i (child_of header parent))
                (sym at_new) new_Linked))
        | inr (inl (on_parent, same)) ↦ elim (forest.up j parent (ap t.headers on_parent ∙ known)) [
          | inl at_root ↦ inl at_root
          | inr l ↦ inr (
              keeps_Linked new known j parent y (ap (λ (z : ChainHeader). z.header) same)
                (ap (λ (z : ChainHeader). z.height) same)
                (ap (λ (z : ChainHeader). z.chain_work) same) l)
        ]
        | inr (inr old) ↦ elim (forest.up j y old) [
          | inl at_root ↦ inl at_root
          | inr l ↦ inr (keeps_Linked new known j y y refl refl refl l)
        ]
      ];
      down = λ j y c e member. elim (attach_back t k header parent j y e) [
        | inl (at_new, same) ↦
            cc (ap (λ (z : ChainHeader). has_child c z.child_hashes) same, member)
        | inr (inl (on_parent, same)) ↦
            elim (insert_hash-new c k parent.child_hashes
              (sym (ap (λ (z : ChainHeader). has_child c z.child_hashes) same) ∙ member)) [
                | inl c_new ↦ (
                  child_of header parent,
                  ap (attach t k header parent).headers c_new
                      ∙ attach_stored t k header parent apart,
                  omega (arith, ap (λ (z : ChainHeader). z.height) same),
                  sym on_parent,
                )
                | inr c_old ↦
                    again j y c parent (ap t.headers on_parent ∙ known) c_old
                      (ap (λ (z : ChainHeader). z.height) same)
              ]
        | inr (inr old) ↦ again j y c y old member refl
      ];
    },
    refl,
  )
    where
      new_Linked : Linked (attach t k header parent).headers k (child_of header parent)
      new_Linked = record {
        parent = parent_of k parent;
        parent_eq = attach_stored_parent;
        height_eq = omega arith;
        work_eq = refl;
        work_pos = work;
        child = has_child-insert_hash k parent.child_hashes;
      }

      again :
          (j : Bytes) (y : ChainHeader) (c : Bytes) (x : ChainHeader)
          → t.headers j ≡ some x
          → has_child c x.child_hashes ≡ true
          → y.height ≡ x.height
          → (z : ChainHeader) × ((attach t k header parent).headers c ≡ some z)
            × (z.height ≡ suc y.height)
            × (z.header.prev_block_hash ≡ j)
      again j y c x ex member same =
          let (z, ez, high, on_top) = forest.down j x c ex member in
          let (cs, e, inside) = attach_keeps new known c z ez in
          (record z { child_hashes = cs }, e, omega (arith, high, same), on_top)

  attach-Run :
      t.headers k ≡ none
      → t.headers header.prev_block_hash ≡ some parent
      → (n : ℕ) (p : Bytes) (ks : List Bytes) → Run t.headers n p ks
      → Run (attach t k header parent).headers n p ks
  attach-Run new known n p [] r = r
  attach-Run new known n p (c ∷ cs) (h, eh, en, ep, rest) =
      let (ds, e, inside) = attach_keeps new known c h eh in
      (record h { child_hashes = ds }, e, en, ep, attach-Run new known (suc n) c cs rest)

  attach-Marked :
      (best : Bytes → Bool)
      → Marked t.headers t.headers best
      → t.headers header.prev_block_hash ≡ some parent
      → best k ≡ false
      → Marked (attach t k header parent).headers (attach t k header parent).headers best
  unfolding attach
  attach-Marked best v known outside j = elim (Bool-cases (bytes_eq header.prev_block_hash j)) [
    | inl on_parent ↦ rw on_parent (
        ap (λ (b : Bool). some (record (parent_of k parent) { in_best_chain = b }))
          (flag_of parent (best j) (
            sym (ap t.headers (sym (bytes_eq→eq header.prev_block_hash j on_parent)) ∙ known)
            ∙ v j
            ∙ ap (set_flag (best j))
                (ap t.headers (sym (bytes_eq→eq header.prev_block_hash j on_parent)) ∙ known))))
    | inr off ↦ elim (Bool-cases (bytes_eq k j)) [
      | inl new_key ↦ rw (off, new_key, ap best (sym (bytes_eq→eq k j new_key)), outside)
      | inr other ↦ rw (off, other) (v j)
    ]
  ]
    where
      flag_of :
          (x : ChainHeader) (b : Bool)
          → ◌≡◌ {A = Option ChainHeader} (some x) (some (record x { in_best_chain = b }))
          → x.in_best_chain ≡ b
      flag_of x b e = ap (λ (y : ChainHeader). y.in_best_chain) (some-injective e)

  attach_rest_maps :
      ((i : ℕ) → (attach t k header parent).heights i ≡ t.heights i)
      × ((attach t k header parent).next_height ≡ t.next_height)
  unfolding attach
  attach_rest_maps = (λ i. refl, refl)

  -- The best chain is what it was.
  pub attach-Charted :
      (chain : List Bytes)
      → Charted t.headers chain t
      → t.headers k ≡ none
      → t.headers header.prev_block_hash ≡ some parent
      → has_child k chain ≡ false
      → Charted (attach t k header parent).headers chain (attach t k header parent)
  attach-Charted chain d new known outside = record {
    origin = d.origin;
    run = attach-Run new known 0 d.origin chain d.run;
    marked = attach-Marked (λ j. has_child j chain) d.marked known outside;
    heights_eq = λ i. attach_rest_maps.0 i ∙ d.heights_eq i;
    next_height_eq = attach_rest_maps.1 ∙ d.next_height_eq;
  }
