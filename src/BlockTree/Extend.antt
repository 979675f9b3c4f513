-- ===== src/BlockTree/Extend.antt =====
-- `setGenesisBlock`, and `insertHeader` of a header on top of the tip.
use m_signa.Prelude.{
  ℕ, suc, ◌+◌, ◌≤◌, ◌<◌, ◌≡◌, refl, [], ◌∷◌, Bool, true, false, ◌&&◌, ◌||◌, ◌==◌, ==_iff, leb,
  lt→ltb, le→leb, none, some, Bool-cases, ◌⊎◌, inl, inr, ◌≢◌, sym, ap, ◌∙◌, arith,
}
use mathlib.Core.Path.{subst}
use m_signa.Result.{ok}
use m_signa.Bytes.{Bytes, bytes_eq, bytes_eq→eq, bytes_eq_refl}
use m_signa.BlockHeader.{BlockHeader, target_of_bits, work_of_bits}
use m_signa.BlockTree.Defs.{
  ChainHeader, BlockTree, Hashing, put_height, inserted, added_best, reorganized, attach, number_of,
  retrace, first_best, raise, switch, set_best_chain, insert_under, insert_header,
  set_genesis_block, empty_tree, mark,
}
use m_signa.BlockTree.Links.{at_hash-some}
use m_signa.BlockTree.BestChain.{child_of, attach_stored, attach_rest, apart_keys}
use m_signa.BlockTree.Attach.{attach_back, attach_keeps}

-- The parent is the tip: it is in the best chain and has no children, and no chain is heavier.
pub record IsTip (t : BlockTree) (key : Bytes) (parent : ChainHeader) : Type 0 where
  pub stored : t.headers key ≡ some parent
  pub best : parent.in_best_chain ≡ true
  pub leaf : parent.child_hashes ≡ []
  pub total : t.total_work ≡ parent.chain_work

attach_parent :
    (t : BlockTree) (k : Bytes) (header : BlockHeader) (parent : ChainHeader)
    → parent.child_hashes ≡ []
    → (attach t k header parent).headers header.prev_block_hash
      ≡ some (record parent { child_hashes = k ∷ [] })
unfolding attach
attach_parent t k header parent e = rw (bytes_eq_refl header.prev_block_hash, e)

-- The best chain after the step.
pub record Extended (t : BlockTree) (k : Bytes) (header : BlockHeader) (parent : ChainHeader)
    (t' : BlockTree) : Type 0 where
  pub tip : IsTip t' k (record (child_of header parent) { in_best_chain = true })
  pub at_height : t'.heights (parent.height + 1) ≡ some k
  pub next_height_eq : t'.next_height ≡ parent.height + 2
  pub head_eq : t'.head ≡ some k
  pub work_eq : t'.total_work ≡ t.total_work + work_of_bits header.bits
  pub heights_eq : (i : ℕ) → t'.heights i ≡ put_height (parent.height + 1) k t.heights i
  pub count_eq : t'.count ≡ t.count + 1
  pub known :
      (j : Bytes) (x : ChainHeader)
      → t'.headers j ≡ some x
      → (j ≡ k) ⊎ ((y : ChainHeader) × (t.headers j ≡ some y))
  pub kept :
      (j : Bytes) (x : ChainHeader)
      → t.headers j ≡ some x
      → (y : ChainHeader) × (t'.headers j ≡ some y)

grow :
    (t : BlockTree) (k : Bytes) (header : BlockHeader) (parent : ChainHeader)
    → t.headers k ≡ none
    → IsTip t header.prev_block_hash parent
    → (t' : BlockTree) × (set_best_chain (attach t k header parent) k
        ≡ ok (t', reorganized k ∷ (added_best k ∷ [])))
      × Extended t k header parent t'
unfolding set_best_chain switch first_best raise
grow t k header parent new v =
    let u : BlockTree = attach t k header parent in
    let apart = apart_keys t.headers header.prev_block_hash k parent v.stored new in
    let here : u.headers k ≡ some (child_of header parent) =
      attach_stored t k header parent apart in
    let above : u.headers header.prev_block_hash ≡ some (record parent { child_hashes = k ∷ [] }) =
      attach_parent t k header parent v.leaf in
    let at_k = at_hash-some u.headers k (child_of header parent) here in
    let at_parent = at_hash-some u.headers header.prev_block_hash _ above in
    let one_more : suc parent.height ≡ parent.height + 1 = omega arith in
    let path : retrace (suc (parent.height + 1)) u.headers k []
        ≡ ok (k ∷ [], header.prev_block_hash) =
      subst (λ (n : ℕ). retrace (suc n) u.headers k [] ≡ ok (k ∷ [], header.prev_block_hash))
        one_more (unfold retrace in rw (at_k, at_parent, v.best)) in
    let t' : BlockTree = record u {
      headers = mark k (child_of header parent) true u.headers;
      heights = put_height (parent.height + 1) k u.heights;
      next_height = parent.height + 1 + 1;
      total_work = parent.chain_work + work_of_bits header.bits;
      head = some k;
    } in
    (
      t',
      rw (at_k, path, at_parent, at_k, at_k),
      record {
        tip = record { stored = rw (bytes_eq_refl k); best = refl; leaf = refl; total = refl };
        at_height = rw ((==_iff (parent.height + 1) (parent.height + 1)).1 refl);
        next_height_eq = omega arith;
        head_eq = refl;
        work_eq = omega (arith, v.total);
        heights_eq = λ i. unfold attach in refl;
        count_eq = (attach_rest t k header parent).0;
        known = λ j x e. where_from j x e;
        kept = λ j x e. still_there j x e;
      },
    )
  where
    where_from :
        (j : Bytes) (x : ChainHeader)
        → mark k (child_of header parent) true (attach t k header parent).headers j ≡ some x
        → (j ≡ k) ⊎ ((y : ChainHeader) × (t.headers j ≡ some y))
    where_from j x e = elim (Bool-cases (bytes_eq k j)) [
      | inl same ↦ inl (sym (bytes_eq→eq k j same))
      | inr other ↦ elim (attach_back t k header parent j x (rw other at e)) [
        | inl (at_new, is_new) ↦ inl at_new
        | inr (inl (on_parent, is_parent)) ↦ inr (parent, ap t.headers on_parent ∙ v.stored)
        | inr (inr old) ↦ inr (x, old)
      ]
    ]

    still_there :
        (j : Bytes) (x : ChainHeader)
        → t.headers j ≡ some x
        → (y : ChainHeader) × (mark k
              (child_of header parent)
              true
              (attach t k header parent).headers
              j
            ≡ some y)
    still_there j x e = elim (Bool-cases (bytes_eq k j)) [
      | inl same ↦ (record (child_of header parent) { in_best_chain = true }, rw same)
      | inr other ↦
          let (cs, e', inside) = attach_keeps t k header parent new v.stored j x e in
          (record x { child_hashes = cs }, rw other e')
    ]

or_true : (b : Bool) → (b || true) ≡ true
or_true true = refl
or_true false = refl

module _ (hashing : Hashing) where
  open hashing use {hash, pow_hash}

  -- A new header on top of the tip, with work in it, whose proof of work is checked and valid, is
  -- always accepted: it is the new tip, so that the next header can go on top of it, one higher and
  -- heavier by its work, and the signals sent are the insertion, a reorganisation and the addition
  -- to the best chain.
  pub insert_header-Extended :
      (t : BlockTree) (header : BlockHeader) (parent : ChainHeader) (replace_tip : Bool)
      → t.count ≢ 0
      → t.headers (hash header) ≡ none
      → IsTip t header.prev_block_hash parent
      → 0 < work_of_bits header.bits
      → number_of 0 (pow_hash header) ≤ target_of_bits header.bits
      → (t' : BlockTree) × (insert_header hashing t header true replace_tip
          ≡ ok (
            true,
            t',
            inserted (hash header) ∷ (reorganized (hash header) ∷ (added_best (hash header) ∷ [])),
          ))
        × Extended t (hash header) header parent t'
  unfolding insert_header insert_under
  insert_header-Extended t header parent replace_tip some_header new v work proof =
      let k : Bytes = hash header in
      let (t', e, x) = grow t k header parent new v in
      let heavier : t.total_work < parent.chain_work + work_of_bits header.bits =
        omega (arith, v.total) in
      let some_count : (t.count == 0) ≡ false = elim (Bool-cases (t.count == 0)) [
        | inl z ↦ absurd (some_header ((==_iff t.count 0).0 z))
        | inr z ↦ z
      ] in
      let always : (replace_tip && leb t.total_work (parent.chain_work + work_of_bits header.bits)
            || true)
          ≡ true =
        or_true (replace_tip && leb t.total_work (parent.chain_work + work_of_bits header.bits)) in
      (t', rw (some_count, new, v.stored, le→leb _ _ proof, lt→ltb _ _ heavier, always, e), x)

  -- `setGenesisBlock` of an empty tree makes the header the tip, at height 0, with its own work.
  pub set_genesis_block-IsTip :
      (header : BlockHeader)
      → (t' : BlockTree) × (set_genesis_block hashing empty_tree header
          ≡ ok (t', inserted (hash header) ∷ (added_best (hash header) ∷ [])))
        × (t'.count ≢ 0)
        × IsTip t' (hash header) (record {
          header = header;
          in_best_chain = true;
          height = 0;
          chain_work = work_of_bits header.bits;
          child_hashes = [];
        })
  unfolding set_genesis_block
  set_genesis_block-IsTip header = (
    _,
    refl,
    (λ e. absurd (omega (arith, e))),
    record { stored = rw (bytes_eq_refl (hash header)); best = refl; leaf = refl; total = refl },
  )
