-- ===== src/Tests/Whole.antt =====
-- The invariant of the block tree of a genesis header and a second one, and its queries.
use m_signa.Prelude.{
  ℕ, suc, ◌≤◌, ◌≡◌, ◌≢◌, ◌⊎◌, inr, refl, sym, ap, ◌∙◌, pos, negsuc, List, [], ◌∷◌, Bool, true,
  false, some,
}
use mathlib.Core.Path.{subst}
use m_signa.Result.{ok, ok-injective}
use m_signa.Bytes.{Bytes}
use m_signa.BlockHeader.{BlockHeader, work_of_bits, target_of_bits}
use m_signa.BlockTree.{
  ChainHeader, BlockTree, Event, attach, number_of, insert_header, insert_under, set_best_chain,
  get_confirmations, get_header_at, get_tip, get_tip_height, get_header_before, get_locator_hashes,
  retrace, at_hash, first_best, switch, raise, inserted,
}
use m_signa.BlockTree.BestChain.{child_of}
use m_signa.BlockTree.Invariant.{WellFormed, insert_header-WellFormed}
use m_signa.BlockTree.Rejoin.{Moved}
use m_signa.BlockTree.SetBest.{set_best_chain-moves}
use m_signa.BlockTree.Genesis.{set_genesis_block-WellFormed}
use m_signa.BlockTree.Lookup.{get_confirmations-get_header_at, get_tip-heaviest}
use m_signa.BlockTree.Before.{Before, get_header_before-Before}
use m_signa.BlockTree.Locator.{Located, get_locator_hashes-Located}
use m_signa.Tests.Chain.{
  by_nonce, header_on, root, root_tree, root_built, second, second_events, some_work, easy,
  moved_tree,
}

root_well : WellFormed root_tree
root_well =
    let (t', events, e, w) = set_genesis_block-WellFormed by_nonce root.header in
    let same : t' ≡ root_tree =
      ap (λ (r : BlockTree × List Event). r.0) (ok-injective (sym e ∙ root_built)) in
    subst WellFormed same w

insert_header-WellFormed_example :
    (t' : BlockTree) × (events : List Event) × (insert_header by_nonce root_tree second true false
      ≡ ok (true, t', events))
    × WellFormed t'
insert_header-WellFormed_example =
    insert_header-WellFormed by_nonce root_tree second root true false root_well refl refl some_work
      (inr easy)

second_inserted :
    insert_header by_nonce root_tree second true false ≡ ok (true, moved_tree, second_events)
unfolding insert_header insert_under attach set_best_chain retrace at_hash first_best switch raise
    work_of_bits target_of_bits number_of
second_inserted = refl

moved_well : WellFormed moved_tree
moved_well =
    let (t', events, e, w) =
      insert_header-WellFormed by_nonce root_tree second root true false root_well refl refl
        some_work (inr easy) in
    let same : t' ≡ moved_tree =
      ap (λ (r : Bool × BlockTree × List Event). r.1) (ok-injective (sym e ∙ second_inserted)) in
    subst WellFormed same w

abbrev second_stored : ChainHeader
second_stored = record (child_of second root) { in_best_chain = true }

get_confirmations-get_header_at_example :
    ((true ≡ true)
      × (n : ℕ) × (get_confirmations moved_tree (2 ∷ []) ≡ pos (suc n))
      × (get_header_at moved_tree (negsuc n) ≡ ok second_stored)
      × (get_header_at moved_tree (pos 1) ≡ ok second_stored))
    ⊎ ((true ≡ false)
        × (get_confirmations moved_tree (2 ∷ []) ≡ pos 0)
        × (get_header_at moved_tree (pos 1) ≢ ok second_stored))
get_confirmations-get_header_at_example =
    get_confirmations-get_header_at moved_tree moved_well (2 ∷ []) second_stored refl

get_tip-heaviest_example :
    (h : ChainHeader) × (get_tip moved_tree ≡ ok h)
    × (get_header_at moved_tree (negsuc 0) ≡ ok h)
    × (get_tip_height moved_tree ≡ ok h.height)
    × (suc h.height ≡ 2)
    × ((k : Bytes) (x : ChainHeader) → moved_tree.headers k ≡ some x → x.chain_work ≤ h.chain_work)
get_tip-heaviest_example = get_tip-heaviest moved_tree moved_well

get_header_before-Before_example :
    (h : ChainHeader) × (get_header_before moved_tree 7 ≡ ok h) × Before moved_tree 7 h
get_header_before-Before_example = get_header_before-Before moved_tree moved_well 7

get_locator_hashes-Located_example :
    (hs : List Bytes) × (get_locator_hashes by_nonce moved_tree (negsuc 0) ≡ ok hs)
    × Located by_nonce moved_tree moved_well 2 2 0 1 hs
get_locator_hashes-Located_example =
    get_locator_hashes-Located by_nonce moved_tree moved_well (negsuc 0)

-- A second header on the genesis header, beside the best chain.
abbrev rival : BlockHeader
rival = header_on (1 ∷ []) 3

abbrev forked_root : ChainHeader
forked_root = record root { child_hashes = (2 ∷ []) ∷ [] }

abbrev forked_tree : BlockTree
forked_tree = attach moved_tree (3 ∷ []) rival forked_root

rival_inserted :
    insert_header by_nonce moved_tree rival true false
    ≡ ok (true, forked_tree, inserted (3 ∷ []) ∷ [])
unfolding insert_header insert_under attach work_of_bits target_of_bits number_of
rival_inserted = refl

forked_well : WellFormed forked_tree
unfolding attach
forked_well =
    let (t', events, e, w) =
      insert_header-WellFormed by_nonce moved_tree rival forked_root true false moved_well refl refl
        some_work (inr easy) in
    let same : t' ≡ forked_tree =
      ap (λ (r : Bool × BlockTree × List Event). r.1) (ok-injective (sym e ∙ rival_inserted)) in
    subst WellFormed same w

rival_stored : forked_tree.headers (3 ∷ []) ≡ some (child_of rival forked_root)
unfolding attach
rival_stored = refl

set_best_chain-moves_example :
    (t' : BlockTree) × (events : List Event) × (set_best_chain forked_tree (3 ∷ [])
      ≡ ok (t', events))
    × Moved forked_tree.headers forked_well.forest forked_tree
        (3 ∷ [])
        (child_of rival forked_root)
        t'
set_best_chain-moves_example =
    set_best_chain-moves forked_tree forked_well (3 ∷ []) (child_of rival forked_root) rival_stored
      refl
