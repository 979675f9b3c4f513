-- ===== src/BlockTree/File/Checked.antt =====
-- What `insertHeader` with its check keeps of the headers, so that they can be written and loaded.
use m_signa.Prelude.{
  ◌≤◌, ◌≡◌, refl, sym, ap, ◌∙◌, ◌⊎◌, inl, inr, [], Bool, true, false, ◌&&◌, ◌||◌, ◌==◌, ltb, leb,
  leb→le, if◌then◌else◌, none, some, Option-cases, List, length, arith,
}
use mathlib.Core.Path.{subst}
use m_signa.Result.{ok, guard, >>=-eq-ok, guard-eq-ok, ok-injective}
use m_signa.Bytes.{Bytes}
use m_signa.BlockHeader.{BlockHeader, target_of_bits, work_of_bits}
use m_signa.BlockHeader.RoundTrip.{IsHeader}
use m_signa.BlockTree.Defs.{
  ChainHeader, BlockTree, Event, Hashing, attach, number_of, set_best_chain, insert_under,
  insert_header,
}
use m_signa.BlockTree.Links.{strip, some-injective, set_best_chain-Switched}
use m_signa.BlockTree.BestChain.{child_of, attach_stored, apart_keys}
use m_signa.BlockTree.Attach.{attach_back}
use m_signa.BlockTree.File.Replay.{Sound}

-- The same header, with other flags and children.
pub record Alike (x y : ChainHeader) : Type 0 where
  pub header_eq : y.header ≡ x.header
  pub height_eq : y.height ≡ x.height
  pub work_eq : y.chain_work ≡ x.chain_work

settled_back :
    (u : BlockTree) (k : Bytes) (h : ChainHeader) (b : Bool) (s : BlockTree × List Event)
    → u.headers k ≡ some h
    → h.in_best_chain ≡ false
    → (if b then set_best_chain u k else ok (u, [])) ≡ ok s
    → (j : Bytes) (y : ChainHeader) → s.0.headers j ≡ some y
    → (x : ChainHeader) × (u.headers j ≡ some x) × Alike x y
settled_back u k h true s here outside e j y ey =
    let w = set_best_chain-Switched u k h s here outside e in
    elim (Option-cases (u.headers j)) [
      | inl nothing ↦ cc (ap strip ey, w.same j, ap strip nothing)
      | inr (x, ex) ↦
          let same = some-injective (sym (ap strip ey) ∙ w.same j ∙ ap strip ex) in
          (
            x,
            ex,
            record {
              header_eq = ap (λ (z : ChainHeader). z.header) same;
              height_eq = ap (λ (z : ChainHeader). z.height) same;
              work_eq = ap (λ (z : ChainHeader). z.chain_work) same;
            },
          )
    ]
settled_back u k h false s here outside e j y ey = (
  y,
  ap (λ (r : BlockTree × List Event). r.0.headers j) (ok-injective e) ∙ ey,
  record { header_eq = refl; height_eq = refl; work_eq = refl },
)

module _ (hashing : Hashing) where
  open hashing use {hash, pow_hash}

  -- Every header behind the step is the new one, or was there.
  insert_header-back :
      (t : BlockTree) (header : BlockHeader) (parent : ChainHeader) (replace_tip : Bool)
      (r : Bool × BlockTree × List Event)
      → t.headers (hash header) ≡ none
      → t.headers header.prev_block_hash ≡ some parent
      → insert_header hashing t header true replace_tip ≡ ok r
      → (number_of 0 (pow_hash header) ≤ target_of_bits header.bits)
        × ((j : Bytes) (y : ChainHeader)
            → r.1.headers j ≡ some y
            → ((j ≡ hash header) × Alike (child_of header parent) y)
              ⊎ ((x : ChainHeader) × (t.headers j ≡ some x) × Alike x y))
  unfolding insert_header insert_under
  insert_header-back t header parent replace_tip r new known e =
      let k : Bytes = hash header in
      let (u, e1, e2) = >>=-eq-ok (guard (if t.count == 0 then false else true) _) _ e in
      let e3 = rw (new, known) at e2 in
      let (w, e4, e5) =
        >>=-eq-ok (guard (leb (number_of 0 (pow_hash header)) (target_of_bits header.bits)) _) _
          e3 in
      let (s, e6, e7) =
        >>=-eq-ok
          (if (replace_tip && leb t.total_work (child_of header parent).chain_work)
              || ltb t.total_work (child_of header parent).chain_work
            then set_best_chain (attach t k header parent) k
            else ok (attach t k header parent, []))
          _ e5 in
      let here =
        attach_stored t k header parent
          (apart_keys t.headers header.prev_block_hash k parent known new) in
      (
        leb→le _ _ (guard-eq-ok _ _ e4),
        λ j y ey.
            let (x, ex, alike) =
              settled_back (attach t k header parent) k (child_of header parent) _ s here refl e6 j
                y
                (ap (λ (z : Bool × BlockTree × List Event). z.1.headers j) (ok-injective e7)
                  ∙ ey) in
            before j y x ex alike,
      )
    where
      before :
          (j : Bytes) (y x : ChainHeader)
          → (attach t (hash header) header parent).headers j ≡ some x
          → Alike x y
          → ((j ≡ hash header) × Alike (child_of header parent) y)
            ⊎ ((z : ChainHeader) × (t.headers j ≡ some z) × Alike z y)
      before j y x ex alike = elim (attach_back t (hash header) header parent j x ex) [
        | inl (at_new, same) ↦ inl (at_new, subst (λ (z : ChainHeader). Alike z y) same alike)
        | inr (inl (on_parent, same)) ↦ inr (
          parent,
          ap t.headers on_parent ∙ known,
          record {
            header_eq = alike.header_eq ∙ ap (λ (z : ChainHeader). z.header) same;
            height_eq = alike.height_eq ∙ ap (λ (z : ChainHeader). z.height) same;
            work_eq = alike.work_eq ∙ ap (λ (z : ChainHeader). z.chain_work) same;
          },
        )
        | inr (inr old) ↦ inr (x, old, alike)
      ]

  -- `insertHeader` with its check keeps the headers sound.
  pub insert_header-Sound :
      (t : BlockTree) (header : BlockHeader) (parent : ChainHeader) (replace_tip : Bool)
      (r : Bool × BlockTree × List Event)
      → Sound hashing t.headers
      → IsHeader header
      → 4 ≤ length (hash header)
      → t.headers (hash header) ≡ none
      → t.headers header.prev_block_hash ≡ some parent
      → insert_header hashing t header true replace_tip ≡ ok r
      → Sound hashing r.1.headers
  insert_header-Sound t header parent replace_tip r sound valid long new known e =
      let (proof, back) = insert_header-back t header parent replace_tip r new known e in
      record {
        keyed = λ j y ey. elim (back j y ey) [
          | inl (at_new, alike) ↦ ap hash alike.header_eq ∙ sym at_new
          | inr (x, ex, alike) ↦ ap hash alike.header_eq ∙ sound.keyed j x ex
        ];
        sized = λ j y ey. elim (back j y ey) [
          | inl (at_new, alike) ↦ subst IsHeader (sym alike.header_eq) valid
          | inr (x, ex, alike) ↦ subst IsHeader (sym alike.header_eq) (sound.sized j x ex)
        ];
        hash_size = λ j y ey. elim (back j y ey) [
          | inl (at_new, alike) ↦ subst (λ (b : Bytes). 4 ≤ length b) (sym at_new) long
          | inr (x, ex, alike) ↦ sound.hash_size j x ex
        ];
        first_work = λ j y ey low. elim (back j y ey) [
          | inl (at_new, alike) ↦ absurd (omega (arith, alike.height_eq, low))
          | inr (x, ex, alike) ↦
              alike.work_eq
              ∙ sound.first_work j x ex (sym alike.height_eq ∙ low)
              ∙ ap (λ (h : BlockHeader). work_of_bits h.bits) (sym alike.header_eq)
        ];
        proved = λ j y ey high. elim (back j y ey) [
          | inl (at_new, alike) ↦
              subst (λ (h : BlockHeader). number_of 0 (pow_hash h) ≤ target_of_bits h.bits)
                (sym alike.header_eq) proof
          | inr (x, ex, alike) ↦
              subst (λ (h : BlockHeader). number_of 0 (pow_hash h) ≤ target_of_bits h.bits)
                (sym alike.header_eq) (sound.proved j x ex (omega (arith, high, alike.height_eq)))
        ];
      }
