-- ===== src/Tests/Chain.antt =====
-- A block tree of a genesis header and a second one. The nonce of a header is its hash.
use m_signa.Prelude.{
  ℕ, ◌+◌, ◌<◌, ◌≤◌, ◌≡◌, ◌≢◌, ◌⊎◌, refl, List, [], ◌∷◌, true, false, none, some, arith,
}
use m_signa.Result.{ok}
use m_signa.Bytes.{Bytes}
use m_signa.BlockHeader.{BlockHeader, target_of_bits, work_of_bits}
use m_signa.BlockTree.{
  ChainHeader, BlockTree, Event, Hashing, put, put_height, empty_tree, inserted, added_best,
  reorganized, attach, number_of, insert_header, set_genesis_block, set_best_chain, retrace,
  at_hash, first_best, switch, raise, mark,
}
use m_signa.BlockTree.BestChain.{Added, child_of, insert_header-Added}
use m_signa.BlockTree.Extend.{IsTip, Extended, insert_header-Extended}

abbrev pub by_nonce : Hashing
by_nonce = record { hash = λ h. h.nonce ∷ []; pow_hash = λ h. [] }

abbrev pub header_on : Bytes → ℕ → BlockHeader
header_on prev nonce = record {
  version = 1;
  prev_block_hash = prev;
  merkle_root = [];
  timestamp = 0;
  bits = 486604799;
  nonce = nonce;
}

abbrev pub root : ChainHeader
root = record {
  header = header_on (0 ∷ []) 1;
  in_best_chain = true;
  height = 0;
  chain_work = work_of_bits 486604799;
  child_hashes = [];
}

abbrev pub root_tree : BlockTree
root_tree = record {
  headers = put (1 ∷ []) root (λ k. none);
  count = 1;
  heights = put_height 0 (1 ∷ []) (λ k. none);
  next_height = 1;
  total_work = work_of_bits 486604799;
  head = some (1 ∷ []);
}

pub root_built :
    set_genesis_block by_nonce empty_tree root.header
    ≡ ok (root_tree, inserted (1 ∷ []) ∷ (added_best (1 ∷ []) ∷ []))
unfolding set_genesis_block
root_built = refl

abbrev pub second : BlockHeader
second = header_on (1 ∷ []) 2

root-IsTip : IsTip root_tree (1 ∷ []) root
root-IsTip = record { stored = refl; best = refl; leaf = refl; total = refl }

pub some_work : 0 < work_of_bits 486604799
unfolding work_of_bits target_of_bits
some_work = omega arith

pub easy : number_of 0 [] ≤ target_of_bits 486604799
unfolding number_of target_of_bits
easy = omega arith

not_empty : root_tree.count ≢ 0
not_empty e = absurd (omega (arith, e))

insert_header-Extended_example :
    (t' : BlockTree) × (insert_header by_nonce root_tree second true false
      ≡ ok (true, t', inserted (2 ∷ []) ∷ (reorganized (2 ∷ []) ∷ (added_best (2 ∷ []) ∷ []))))
    × Extended root_tree (2 ∷ []) second root t'
insert_header-Extended_example =
    insert_header-Extended by_nonce root_tree second root false not_empty refl root-IsTip some_work
      easy

abbrev pub second_events : List Event
second_events = inserted (2 ∷ []) ∷ (reorganized (2 ∷ []) ∷ (added_best (2 ∷ []) ∷ []))

abbrev grown :
    (t' : BlockTree) × (insert_header by_nonce root_tree second true false
      ≡ ok (true, t', second_events))
    × Extended root_tree (2 ∷ []) second root t'
grown =
    insert_header-Extended by_nonce root_tree second root false not_empty refl root-IsTip some_work
      easy

insert_header-Added_example :
    (true ≡ true)
    × Added root_tree (2 ∷ []) second root grown.0
    × ((true ≡ false) ⊎ (number_of 0 [] ≤ target_of_bits 486604799))
insert_header-Added_example =
    insert_header-Added by_nonce root_tree second root true false (true, grown.0, second_events)
      refl refl grown.1

abbrev pub side_tree : BlockTree
side_tree = attach root_tree (2 ∷ []) second root

abbrev pub moved_tree : BlockTree
moved_tree = record side_tree {
  headers = mark (2 ∷ []) (child_of second root) true side_tree.headers;
  heights = put_height 1 (2 ∷ []) side_tree.heights;
  next_height = 2;
  total_work = work_of_bits 486604799 + work_of_bits 486604799;
  head = some (2 ∷ []);
}

pub moved :
    set_best_chain side_tree (2 ∷ [])
    ≡ ok (moved_tree, reorganized (2 ∷ []) ∷ (added_best (2 ∷ []) ∷ []))
unfolding set_best_chain retrace at_hash first_best switch raise attach
moved = refl
