-- ===== src/BlockTree/Invariant.antt =====
-- The invariant of the block tree, and `insertHeader` on a tree that has it.
use m_signa.Prelude.{
  ℕ, suc, ◌+◌, ◌<◌, ◌≤◌, ◌≡◌, refl, sym, ap, ◌∙◌, ◌⊎◌, inl, inr, List, [], ◌∷◌, Bool, true, false,
  ◌==◌, leb, le→leb, if◌then◌else◌, none, some, Bool-cases, length, arith,
}
use m_signa.Result.{ok}
use m_signa.Bytes.{Bytes, bytes_eq_refl}
use m_signa.BlockHeader.{BlockHeader, target_of_bits, work_of_bits}
use m_signa.BlockTree.Defs.{
  ChainHeader, BlockTree, Event, Hashing, has_child, attach, number_of, set_best_chain,
  insert_under, insert_header, inserted,
}
use m_signa.BlockTree.Links.{some-injective}
use m_signa.BlockTree.BestChain.{child_of, attach_stored, attach_rest, apart_keys, outweighs}
use m_signa.BlockTree.Shape.{
  Marked-back, Marked-some, Marked-self, Run-height, Run-unique, Run-Marked,
}
use m_signa.BlockTree.Forest.{Forest, Forest-Marked}
use m_signa.BlockTree.Reorg.{Charted}
use m_signa.BlockTree.Switch.{set_best_chain-Moved}
use m_signa.BlockTree.Attach.{attach_back, attach_keeps, attach-Forest, attach-Charted}

-- A block tree as the operations keep it. Every header but the root is linked to its parent, one
-- higher and heavier by its work. The flags, the heights and the size describe one chain, which
-- starts at the root and ends at the tip; the head and the total work are those of the tip, and no
-- header is heavier.
pub record WellFormed (t : BlockTree) : Type 0 where
  pub forest : Forest t.headers
  pub chain : List Bytes
  pub charted : Charted t.headers chain t
  pub anchored : has_child forest.root chain ≡ true
  pub tip : Bytes
  pub top : ChainHeader
  pub tip_eq : t.headers tip ≡ some top
  pub tip_member : has_child tip chain ≡ true
  pub tip_last : length chain ≡ suc top.height
  pub total_eq : t.total_work ≡ top.chain_work
  pub head_eq : t.head ≡ some tip
  pub heaviest : (k : Bytes) (h : ChainHeader) → t.headers k ≡ some h → h.chain_work ≤ t.total_work
  pub count_pos : (t.count == 0) ≡ false

-- The tip has no children: a child would be heavier.
tip_leaf : (t : BlockTree) (w : WellFormed t) → w.top.child_hashes ≡ []
tip_leaf t w = none_of w.top.child_hashes refl
  where
    none_of : (cs : List Bytes) → w.top.child_hashes ≡ cs → cs ≡ []
    none_of [] e = refl
    none_of (c ∷ cs) e =
        let member : has_child c w.top.child_hashes ≡ true = rw (e, bytes_eq_refl c) in
        let (x, ex, high, on_top) = w.forest.down w.tip w.top c w.tip_eq member in
        elim (w.forest.up c x ex) [
          | inl at_root ↦
              absurd (omega (arith, high, w.forest.root_low x (ap t.headers (sym at_root) ∙ ex)))
          | inr l ↦
              let p_top : l.parent ≡ w.top =
                some-injective (sym l.parent_eq ∙ ap t.headers on_top ∙ w.tip_eq) in
              absurd (
                omega (
                  arith,
                  w.heaviest c x ex,
                  w.total_eq,
                  l.work_eq,
                  l.work_pos,
                  ap (λ (y : ChainHeader). y.chain_work) p_top,
                ))
        ]

-- The header at the end of the chain is the tip.
pub last_tip :
    (t : BlockTree) (w : WellFormed t) (j : Bytes) (x : ChainHeader)
    → t.headers j ≡ some x
    → has_child j w.chain ≡ true
    → suc x.height ≡ length w.chain
    → x.child_hashes ≡ []
last_tip t w j x ex member high =
    let same : j ≡ w.tip =
      Run-unique t.headers 0 w.charted.origin w.chain j w.tip x w.top w.charted.run member
        w.tip_member ex w.tip_eq (omega (arith, high, w.tip_last)) in
    let x_top : x ≡ w.top = some-injective (sym ex ∙ ap t.headers same ∙ w.tip_eq) in
    ap (λ (y : ChainHeader). y.child_hashes) x_top ∙ tip_leaf t w

-- A key that is not stored is not in the best chain.
new_outside :
    (t : BlockTree) (w : WellFormed t) (k : Bytes)
    → t.headers k ≡ none
    → has_child k w.chain ≡ false
new_outside t w k new = elim (Bool-cases (has_child k w.chain)) [
  | inl inside ↦
      let (x, ex, lo, hi) =
        Run-height t.headers 0 w.charted.origin w.chain k w.charted.run inside in
      cc (new, ex)
  | inr outside ↦ outside
]

root_stored :
    (t : BlockTree) (w : WellFormed t) → (r : ChainHeader) × (t.headers w.forest.root ≡ some r)
root_stored t w =
    let (r, er, lo, hi) =
      Run-height t.headers 0 w.charted.origin w.chain w.forest.root w.charted.run w.anchored in
    (r, er)

-- The switch to the new header leaves a tree with the invariant.
module _ (t : BlockTree) (k : Bytes) (header : BlockHeader) (parent : ChainHeader)
    (w : WellFormed t) where
  grown-Forest :
      t.headers k ≡ none
      → t.headers header.prev_block_hash ≡ some parent
      → 0 < work_of_bits header.bits
      → (f : Forest (attach t k header parent).headers) × (f.root ≡ w.forest.root)
  grown-Forest new known work =
      let (r, er) = root_stored t w in
      attach-Forest t k header parent w.forest r er new known
        (apart_keys t.headers header.prev_block_hash k parent known new) work

  -- No header of the grown tree is heavier than the tip or the new header.
  bounded :
      (n : ℕ)
      → t.headers header.prev_block_hash ≡ some parent
      → t.total_work ≤ n
      → (child_of header parent).chain_work ≤ n
      → (j : Bytes) (x : ChainHeader) → (attach t k header parent).headers j ≡ some x
      → x.chain_work ≤ n
  bounded n known total new_work j x e = elim (attach_back t k header parent j x e) [
    | inl (at_new, same) ↦ omega (arith, ap (λ (y : ChainHeader). y.chain_work) same, new_work)
    | inr (inl (on_parent, same)) ↦ omega (
      arith,
      ap (λ (y : ChainHeader). y.chain_work) same,
      total,
      w.heaviest header.prev_block_hash parent known,
    )
    | inr (inr old) ↦ omega (arith, w.heaviest j x old, total)
  ]

  leaf_or_parent :
      t.headers k ≡ none
      → (j : Bytes) (x : ChainHeader) → (attach t k header parent).headers j ≡ some x
      → has_child j w.chain ≡ true
      → suc x.height ≡ length w.chain
      → (header.prev_block_hash ≡ j) ⊎ (x.child_hashes ≡ [])
  leaf_or_parent new j x e member high = elim (attach_back t k header parent j x e) [
    | inl (at_new, same) ↦
        cc (member, new_outside t w k new, ap (λ (i : Bytes). has_child i w.chain) at_new)
    | inr (inl (on_parent, same)) ↦ inl (sym on_parent)
    | inr (inr old) ↦ inr (last_tip t w j x old member high)
  ]

  some_more : ((attach t k header parent).count == 0) ≡ false
  some_more = ap (λ (n : ℕ). n == 0) (attach_rest t k header parent).0 ∙ after t.count
    where
      after : (n : ℕ) → (n + 1 == 0) ≡ false
      after n = ground arith

  stays-WellFormed :
      t.headers k ≡ none
      → t.headers header.prev_block_hash ≡ some parent
      → 0 < work_of_bits header.bits
      → (child_of header parent).chain_work ≤ t.total_work
      → WellFormed (attach t k header parent)
  stays-WellFormed new known work light =
      let rest = attach_rest t k header parent in
      let (cs, e, inside) = attach_keeps t k header parent new known w.tip w.top w.tip_eq in
      record {
        forest = (grown-Forest new known work).0;
        chain = w.chain;
        charted =
            attach-Charted t k header parent w.chain w.charted new known (new_outside t w k new);
        anchored =
            ap (λ (i : Bytes). has_child i w.chain) (grown-Forest new known work).1 ∙ w.anchored;
        tip = w.tip;
        top = record w.top { child_hashes = cs };
        tip_eq = e;
        tip_member = w.tip_member;
        tip_last = w.tip_last;
        total_eq = rest.1 ∙ w.total_eq;
        head_eq = rest.2 ∙ w.head_eq;
        heaviest =
            λ j x ex. omega (arith, rest.1, bounded t.total_work known (omega arith) light j x ex);
        count_pos = some_more;
      }

  moves-WellFormed :
      t.headers k ≡ none
      → t.headers header.prev_block_hash ≡ some parent
      → 0 < work_of_bits header.bits
      → t.total_work ≤ (child_of header parent).chain_work
      → (t' : BlockTree) × (events : List Event) × (set_best_chain (attach t k header parent) k
          ≡ ok (t', events))
        × WellFormed t'
  moves-WellFormed new known work heavy =
      let u : BlockTree = attach t k header parent in
      let (forest, same_root) = grown-Forest new known work in
      let outside = new_outside t w k new in
      let here =
        attach_stored t k header parent
          (apart_keys t.headers header.prev_block_hash k parent known new) in
      let (t', events, e, m) =
        set_best_chain-Moved u.headers forest w.chain u k (child_of header parent)
          (attach-Charted t k header parent w.chain w.charted new known outside)
          (ap (λ (i : Bytes). has_child i w.chain) same_root ∙ w.anchored) here outside
          (leaf_or_parent new) in
      let marked = Forest-Marked u.headers t'.headers _ m.charted.marked forest in
      (
        t',
        events,
        e,
        record {
          forest = marked.0;
          chain = m.chain;
          charted = record {
            origin = m.charted.origin;
            run =
                Run-Marked u.headers t'.headers _ 0 m.charted.origin m.chain m.charted.marked
                  m.charted.run;
            marked = Marked-self u.headers t'.headers _ m.charted.marked;
            heights_eq = m.charted.heights_eq;
            next_height_eq = m.charted.next_height_eq;
          };
          anchored = ap (λ (i : Bytes). has_child i m.chain) marked.1 ∙ m.anchored;
          tip = k;
          top = record (child_of header parent) { in_best_chain = has_child k m.chain };
          tip_eq =
              Marked-some u.headers t'.headers _ k (child_of header parent) m.charted.marked here;
          tip_member = m.member;
          tip_last = m.size;
          total_eq = m.total_eq;
          head_eq = m.head_eq;
          heaviest = λ j x ex.
              let (y, ey, same) = Marked-back u.headers t'.headers _ j x m.charted.marked ex in
              omega (
                arith,
                ap (λ (z : ChainHeader). z.chain_work) same,
                m.total_eq,
                bounded (child_of header parent).chain_work known heavy (omega arith) j y ey,
              );
          count_pos = ap (λ (n : ℕ). n == 0) m.count_eq ∙ some_more;
        },
      )

  settles :
      (b : Bool)
      → t.headers k ≡ none
      → t.headers header.prev_block_hash ≡ some parent
      → 0 < work_of_bits header.bits
      → (b ≡ true → t.total_work ≤ (child_of header parent).chain_work)
      → (b ≡ false → (child_of header parent).chain_work ≤ t.total_work)
      → (t' : BlockTree) × (events : List Event) × ((if b
            then set_best_chain (attach t k header parent) k
            else ok (attach t k header parent, []))
          ≡ ok (t', events))
        × WellFormed t'
  settles true new known work heavy light = moves-WellFormed new known work (heavy refl)
  settles false new known work heavy light =
      (attach t k header parent, [], refl, stays-WellFormed new known work (light refl))

proof_passes :
    (b : Bool) (n target : ℕ)
    → (b ≡ false) ⊎ (n ≤ target)
    → (if b then leb n target else true) ≡ true
proof_passes true n target (inl no_check) = cc
proof_passes true n target (inr low) = le→leb n target low
proof_passes false n target p = refl

module _ (hashing : Hashing) where
  open hashing use {hash, pow_hash}

  -- On a tree with the invariant, `insertHeader` of a new header with some work, under a known
  -- parent, whose proof of work is valid where it is checked, always returns true, and leaves a tree
  -- with the invariant: the loops of a reorganisation end, and the flags, the heights and the tip
  -- describe one chain again.
  pub insert_header-WellFormed :
      (t : BlockTree) (header : BlockHeader) (parent : ChainHeader) (check_work replace_tip : Bool)
      → WellFormed t
      → t.headers (hash header) ≡ none
      → t.headers header.prev_block_hash ≡ some parent
      → 0 < work_of_bits header.bits
      → (check_work ≡ false) ⊎ (number_of 0 (pow_hash header) ≤ target_of_bits header.bits)
      → (t' : BlockTree) × (events : List Event) × (insert_header hashing t header check_work
            replace_tip
          ≡ ok (true, t', events))
        × WellFormed t'
  unfolding insert_header insert_under
  insert_header-WellFormed t header parent check_work replace_tip w new known work proof =
      let weight = outweighs replace_tip t.total_work (child_of header parent).chain_work in
      let (t', events, e, w') =
        settles t (hash header) header parent w _ new known work weight.0 weight.1 in
      (
        t',
        inserted (hash header) ∷ events,
        rw (w.count_pos, new, known, proof_passes check_work _ _ proof, e),
        w',
      )
