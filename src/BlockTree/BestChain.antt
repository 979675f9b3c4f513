-- ===== src/BlockTree/BestChain.antt =====
-- `insertHeader` of a new header under a known parent.
use m_signa.Prelude.{
  ℕ, ◌+◌, ◌≤◌, ◌≡◌, refl, ap, ◌∙◌, List, [], Bool, true, false, ◌&&◌, ◌||◌, ◌==◌, ltb, leb, leb→le,
  if◌then◌else◌, none, some, Bool-cases, ◌⊎◌, inl, inr, arith,
}
use mathlib.Core.Path.{subst}
use m_signa.Result.{ok, guard, >>=-eq-ok, guard-eq-ok, ok-injective}
use m_signa.Bytes.{Bytes, bytes_eq, bytes_eq→eq, bytes_eq_refl}
use m_signa.BlockHeader.{BlockHeader, target_of_bits, work_of_bits}
use m_signa.BlockTree.Defs.{
  ChainHeader, BlockTree, Event, Map, Hashing, attach, number_of, set_best_chain, insert_under,
  insert_header,
}
use m_signa.BlockTree.Links.{strip, set_best_chain-Switched}

-- The new header, as `insertHeader` stores it.
abbrev pub child_of : BlockHeader → ChainHeader → ChainHeader
child_of header parent = record {
  header = header;
  in_best_chain = false;
  height = parent.height + 1;
  chain_work = parent.chain_work + work_of_bits header.bits;
  child_hashes = [];
}

-- The tree after a header was added under `parent`: it is there with its height and its work, and
-- the tip is the header exactly if the tree switched to it.
pub record Added (t : BlockTree) (k : Bytes) (header : BlockHeader) (parent : ChainHeader)
    (t' : BlockTree) : Type 0 where
  pub stored : strip (t'.headers k) ≡ some (child_of header parent)
  pub count_eq : t'.count ≡ t.count + 1
  pub work_grows : t.total_work ≤ t'.total_work
  pub heaviest : (child_of header parent).chain_work ≤ t'.total_work
  pub tip :
      ((t'.head ≡ some k) × (t'.total_work ≡ (child_of header parent).chain_work))
      ⊎ ((t'.head ≡ t.head)
          × (t'.total_work ≡ t.total_work)
          × ((child_of header parent).chain_work ≤ t.total_work))

pub attach_stored :
    (t : BlockTree) (k : Bytes) (header : BlockHeader) (parent : ChainHeader)
    → bytes_eq header.prev_block_hash k ≡ false
    → (attach t k header parent).headers k ≡ some (child_of header parent)
unfolding attach
attach_stored t k header parent e = rw (e, bytes_eq_refl k)

pub attach_rest :
    (t : BlockTree) (k : Bytes) (header : BlockHeader) (parent : ChainHeader)
    → ((attach t k header parent).count ≡ t.count + 1)
      × ((attach t k header parent).total_work ≡ t.total_work)
      × ((attach t k header parent).head ≡ t.head)
unfolding attach
attach_rest t k header parent = (refl, refl, refl)

pub outweighs :
    (replace_tip : Bool) (total work : ℕ)
    → (((replace_tip && leb total work) || ltb total work) ≡ true → total ≤ work)
      × (((replace_tip && leb total work) || ltb total work) ≡ false → work ≤ total)
outweighs replace_tip total work = (yes_case replace_tip, no_case replace_tip)
  where
    yes_case : (b : Bool) → ((b && leb total work) || ltb total work) ≡ true → total ≤ work
    yes_case b h = ground arith

    no_case : (b : Bool) → ((b && leb total work) || ltb total work) ≡ false → work ≤ total
    no_case b h = ground arith

-- The switch of the tree `u` to which the header was attached.
settle :
    (t : BlockTree) (k : Bytes) (header : BlockHeader) (parent : ChainHeader) (b : Bool)
    (s : BlockTree × List Event)
    → bytes_eq header.prev_block_hash k ≡ false
    → (b ≡ true → t.total_work ≤ (child_of header parent).chain_work)
    → (b ≡ false → (child_of header parent).chain_work ≤ t.total_work)
    → (if b then set_best_chain (attach t k header parent) k else ok (attach t k header parent, []))
      ≡ ok s
    → Added t k header parent s.0
settle t k header parent true s apart above below e =
    let u : BlockTree = attach t k header parent in
    let r = attach_rest t k header parent in
    let here = attach_stored t k header parent apart in
    let w = set_best_chain-Switched u k (child_of header parent) s here refl e in
    record {
      stored = w.same k ∙ ap strip here;
      count_eq = w.count_eq ∙ r.0;
      work_grows = omega (arith, w.work_eq, above refl);
      heaviest = omega (arith, w.work_eq);
      tip = inl (w.head_eq, w.work_eq);
    }
settle t k header parent false s apart above below e =
    let r = attach_rest t k header parent in
    subst (λ (x : BlockTree × List Event). Added t k header parent x.0) (ok-injective e)
      (record {
        stored = ap strip (attach_stored t k header parent apart);
        count_eq = r.0;
        work_grows = omega (arith, r.1);
        heaviest = omega (arith, r.1, below refl);
        tip = inr (r.2, r.1, below refl);
      })

work_checked :
    (b : Bool) (n target : ℕ)
    → (if b then leb n target else true) ≡ true
    → (b ≡ false) ⊎ (n ≤ target)
work_checked true n target e = inr (leb→le n target e)
work_checked false n target e = inl refl

pub apart_keys :
    (m : Map Bytes ChainHeader) (j k : Bytes) (h : ChainHeader)
    → m j ≡ some h
    → m k ≡ none
    → bytes_eq j k ≡ false
apart_keys m j k h p q = elim (Bool-cases (bytes_eq j k)) [
  | inl e ↦ cc (p, q, ap m (bytes_eq→eq j k e))
  | inr e ↦ e
]

module _ (hashing : Hashing) where
  open hashing use {hash, pow_hash}

  -- A header that is new, under a parent that is known: where `insertHeader` returns, it returns
  -- true, and the header is in the tree with its height and chain work. The total work of the best
  -- chain has not become less, and is at least that of the new header: the tip is the new header, or
  -- it is the old one and the new header has no more work. If the work is checked, the hash is at
  -- most the target.
  pub insert_header-Added :
      (t : BlockTree) (header : BlockHeader) (parent : ChainHeader) (check_work replace_tip : Bool)
      (r : Bool × BlockTree × List Event)
      → t.headers (hash header) ≡ none
      → t.headers header.prev_block_hash ≡ some parent
      → insert_header hashing t header check_work replace_tip ≡ ok r
      → (r.0 ≡ true)
        × Added t (hash header) header parent r.1
        × ((check_work ≡ false) ⊎ (number_of 0 (pow_hash header) ≤ target_of_bits header.bits))
  unfolding insert_header insert_under
  insert_header-Added t header parent check_work replace_tip r new known e =
      let k : Bytes = hash header in
      let (u, e1, e2) = >>=-eq-ok (guard (if t.count == 0 then false else true) _) _ e in
      let e3 = rw (new, known) at e2 in
      let (w, e4, e5) =
        >>=-eq-ok
          (guard
            (if check_work
              then leb (number_of 0 (pow_hash header)) (target_of_bits header.bits)
              else true)
            _)
          _ e3 in
      let (s, e6, e7) =
        >>=-eq-ok
          (if (replace_tip && leb t.total_work (child_of header parent).chain_work)
              || ltb t.total_work (child_of header parent).chain_work
            then set_best_chain (attach t k header parent) k
            else ok (attach t k header parent, []))
          _ e5 in
      let weight = outweighs replace_tip t.total_work (child_of header parent).chain_work in
      let added : Added t k header parent s.0 =
        settle t k header parent _ s
          (apart_keys t.headers header.prev_block_hash k parent known new) weight.0 weight.1 e6 in
      subst
        (λ (x : Bool × BlockTree × List Event).
          (x.0 ≡ true)
          × Added t k header parent x.1
          × ((check_work ≡ false) ⊎ (number_of 0 (pow_hash header) ≤ target_of_bits header.bits)))
        (ok-injective e7) (refl, added, work_checked check_work _ _ (guard-eq-ok _ _ e4))
