-- ===== src/BlockTree/Genesis.antt =====
-- `setGenesisBlock` and the invariant of the block tree.
use m_signa.Prelude.{
  ℕ, zero, suc, ◌≡◌, refl, sym, ap, inl, inr, List, [], ◌∷◌, Bool, true, if◌then◌else◌, none, some,
  Bool-cases, get_elem?, arith,
}
use m_signa.Result.{ok}
use m_signa.Bytes.{Bytes, bytes_eq, bytes_eq→eq, bytes_eq_refl}
use m_signa.BlockHeader.{BlockHeader, work_of_bits}
use m_signa.BlockTree.Defs.{
  ChainHeader, BlockTree, Event, Hashing, has_child, empty_tree, set_genesis_block, put, put_height,
}
use m_signa.BlockTree.Links.{some-injective}
use m_signa.BlockTree.Shape.{set_flag, bytes_eq_comm}
use m_signa.BlockTree.Invariant.{WellFormed}

module _ (hashing : Hashing) where
  open hashing use {hash}

  -- `setGenesisBlock` of an empty tree leaves a tree with the invariant.
  pub set_genesis_block-WellFormed :
      (header : BlockHeader)
      → (t' : BlockTree) × (events : List Event) × (set_genesis_block hashing empty_tree header
          ≡ ok (t', events))
        × WellFormed t'
  unfolding set_genesis_block
  set_genesis_block-WellFormed header =
      let k : Bytes = hash header in
      let genesis : ChainHeader = record {
        header = header;
        in_best_chain = true;
        height = 0;
        chain_work = work_of_bits header.bits;
        child_hashes = [];
      } in
      (
        _,
        _,
        refl,
        record {
          forest = record {
            root = k;
            root_low = λ h e.
                ap (λ (y : ChainHeader). y.height)
                  (sym (some-injective (rw (bytes_eq_refl k) at e)));
            up = λ j h e. inl (only j genesis h e).0;
            down = λ j h c e member. cc (
              ap (λ (y : ChainHeader). has_child c y.child_hashes) (only j genesis h e).1,
              member,
            );
          };
          chain = k ∷ [];
          charted = record {
            origin = header.prev_block_hash;
            run = (genesis, rw (bytes_eq_refl k), refl, refl, _);
            marked = λ j. flags genesis j refl;
            heights_eq = at_heights;
            next_height_eq = refl;
          };
          anchored = rw (bytes_eq_refl k);
          tip = k;
          top = genesis;
          tip_eq = rw (bytes_eq_refl k);
          tip_member = rw (bytes_eq_refl k);
          tip_last = refl;
          total_eq = refl;
          head_eq = refl;
          heaviest =
              λ j h e. omega (arith, ap (λ (y : ChainHeader). y.chain_work) (only j genesis h e).1);
          count_pos = refl;
        },
      )
    where
      only :
          (j : Bytes) (g h : ChainHeader)
          → (if bytes_eq (hash header) j then some g else none) ≡ some h
          → (j ≡ hash header) × (h ≡ g)
      only j g h e = elim (Bool-cases (bytes_eq (hash header) j)) [
        | inl same ↦ (sym (bytes_eq→eq (hash header) j same), sym (some-injective (rw same at e)))
        | inr other ↦ cc (rw other at e)
      ]

      flags :
          (g : ChainHeader) (j : Bytes)
          → g.in_best_chain ≡ true
          → put (hash header) g (λ i. none) j
            ≡ set_flag (has_child j (hash header ∷ [])) (put (hash header) g (λ i. none) j)
      flags g j best = elim (Bool-cases (bytes_eq (hash header) j)) [
        | inl same ↦
            rw (same, bytes_eq_comm j (hash header), same)
              (ap (λ (b : Bool). some (record g { in_best_chain = b })) best)
        | inr other ↦ rw other
      ]

      at_heights :
          (i : ℕ) → put_height 0 (hash header) (λ j. none) i ≡ get_elem? (hash header ∷ []) i
      at_heights zero = refl
      at_heights (suc i) = ground arith
