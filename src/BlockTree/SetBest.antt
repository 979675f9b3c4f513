-- ===== src/BlockTree/SetBest.antt =====
-- `setBestChain` of any header outside the best chain, on a tree with the invariant.
use m_signa.Prelude.{◌≡◌, sym, ◌∙◌, inr, List, false, some}
use m_signa.Result.{ok}
use m_signa.Bytes.{Bytes}
use m_signa.BlockTree.Defs.{ChainHeader, BlockTree, Event, set_best_chain}
use m_signa.BlockTree.Rejoin.{Moved}
use m_signa.BlockTree.Switch.{set_best_chain-Moved}
use m_signa.BlockTree.Invariant.{WellFormed, last_tip}
use m_signa.BlockTree.Lookup.{flag_of}

-- On a tree with the invariant, `setBestChain` of a stored header outside the best chain always
-- returns. It leaves the headers as they were but for their flags, and one chain of linked headers,
-- from the old first header on, that holds the root and is as long as the height of the new tip says,
-- with the new tip in it: exactly the headers of that chain are flagged, the heights map each place
-- of the chain to its header and nothing else, the size is its length, and the head and the total
-- work are those of the new tip.
pub set_best_chain-moves :
    (t : BlockTree) (w : WellFormed t) (k : Bytes) (h : ChainHeader)
    → t.headers k ≡ some h
    → h.in_best_chain ≡ false
    → (t' : BlockTree) × (events : List Event) × (set_best_chain t k ≡ ok (t', events))
      × Moved t.headers w.forest t k h t'
set_best_chain-moves t w k h e outside =
    set_best_chain-Moved t.headers w.forest w.chain t k h w.charted w.anchored e
      (sym (flag_of t w k h e) ∙ outside)
      (λ j x ex member high. inr (last_tip t w j x ex member high))
