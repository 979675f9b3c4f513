-- ===== src/Tests/Endless.antt =====
-- A header without work on top of the tip, and the reorganisation after it, which does not end.
use m_signa.Prelude.{ℕ, ◌≡◌, refl, List, [], ◌∷◌, true, false}
use m_signa.Result.{Result, ok, err, ◌>>=◌}
use m_signa.Bytes.{Bytes}
use m_signa.BlockHeader.{BlockHeader, work_of_bits, target_of_bits}
use m_signa.BlockTree.{
  Error, BlockTree, stuck, insert_header, insert_under, attach, set_best_chain, unset_best_chain,
  lower, descend, retrace, at_hash, first_best, switch, raise, number_of,
}
use m_signa.Tests.Chain.{by_nonce, root_tree}

-- A header with the given bits.
abbrev header_of : Bytes → ℕ → ℕ → BlockHeader
header_of prev nonce bits = record {
  version = 1;
  prev_block_hash = prev;
  merkle_root = [];
  timestamp = 0;
  bits = bits;
  nonce = nonce;
}

-- Bits for a target of 2 ^ 256.
no_work : work_of_bits 0x23000001 ≡ 0
unfolding work_of_bits target_of_bits
no_work = refl

abbrev insert_all : BlockTree → List BlockHeader → Result Error BlockTree
insert_all t [] = ok t
insert_all t (h ∷ hs) = insert_header by_nonce t h true false >>= λ r. insert_all r.1 hs

endless :
    insert_all root_tree (
      header_of (1 ∷ []) 3 486604799
      ∷ (header_of (3 ∷ []) 2 0x23000001
          ∷ (header_of (1 ∷ []) 4 486604799 ∷ (header_of (4 ∷ []) 5 486604799 ∷ []))))
    ≡ err stuck
unfolding insert_header insert_under attach set_best_chain unset_best_chain lower descend retrace
    at_hash first_best switch raise number_of work_of_bits target_of_bits
endless = refl
