-- ===== src/BlockTree/Queries.antt =====
-- The queries of the block tree. The height map holds keys here, which the header map resolves.
use m_signa.Prelude.{
  ℕ, zero, suc, ◌+◌, ◌-◌, ◌*◌, ℤ, pos, negsuc, minus, List, [], ◌∷◌, Bool, true, false, ◌&&◌, ◌==◌,
  ltb, leb, if◌then◌else◌, none, some, replicate,
}
use m_signa.Result.{Result, ok, err, guard, ◌>>=◌, ◌>>◌}
use m_signa.Bytes.{Bytes}
use m_signa.BlockTree.Defs.{
  Error, ChainHeader, BlockTree, Hashing, at_hash, not_found, tree_empty, stuck,
}

-- mHeaderHeightMap.at(height), and what it points at
unfoldable pub at_height : BlockTree → ℕ → Result Error ChainHeader
at_height t i = elim (t.heights i) [ none ↦ err not_found | some k ↦ at_hash t.headers k ]

-- hasHeader
unfoldable pub has_header : BlockTree → Bytes → Bool
has_header t k = elim (t.headers k) [ none ↦ false | some h ↦ true ]

-- getHeader of a height. A negative one counts from behind. In the source a test for an empty map
-- comes first; nothing is found there.
unfoldable pub get_header_at : BlockTree → ℤ → Result Error ChainHeader
get_header_at t (pos i) = at_height t i
get_header_at t (negsuc i) =
    if leb (suc i) t.next_height then at_height t (t.next_height - suc i) else err not_found

-- getTip
unfoldable pub get_tip : BlockTree → Result Error ChainHeader
get_tip t = elim t.head [ none ↦ err tree_empty | some k ↦ at_hash t.headers k ]

-- getTipHeight
unfoldable pub get_tip_height : BlockTree → Result Error ℕ
unfolding get_tip
get_tip_height t = do h ← get_tip t; ok h.height

-- The loop of `getHeaderBefore`, at `i`, with `n` heights to go.
unfoldable pub before_loop : BlockTree → ℕ → ℕ → ℕ → Result Error ChainHeader
before_loop t timestamp zero i = at_height t (i - 1)
before_loop t timestamp (suc n) i = do
  h ← at_height t i
  if ltb timestamp h.header.timestamp
      then at_height t (i - 1)
      else before_loop t timestamp n (i + 1)

-- getHeaderBefore
unfoldable pub get_header_before : BlockTree → ℕ → Result Error ChainHeader
get_header_before t timestamp = do
  guard (if t.next_height == 0 then false else true) tree_empty
  before_loop t timestamp (t.next_height - 1) 1

-- g_zero32bytes
abbrev pub zero_32_bytes : Bytes
zero_32_bytes = replicate 32 0

module _ (hashing : Hashing) where
  open hashing use {hash}

  -- The loop of `getLocatorHashes`, on fuel. `next` is 1 more than `i` of the source, which becomes
  -- negative at the end; `n` hashes were taken.
  unfoldable pub locator_loop : ℕ → BlockTree → ℕ → ℕ → ℕ → ℕ → Result Error (List Bytes)
  locator_loop zero t max_size next n step = err stuck
  locator_loop (suc fuel) t max_size next n step =
      if ltb 0 next && ltb n max_size
      then (do
        h ← at_height t (next - 1)
        rest ←
            locator_loop fuel t max_size (next - step) (n + 1)
              (if ltb 10 (n + 1) then step * 2 else step)
        ok (hash h.header ∷ rest))
      else ok []

  -- getLocatorHashes
  unfoldable pub get_locator_hashes : BlockTree → ℤ → Result Error (List Bytes)
  get_locator_hashes t max_size =
      if t.next_height == 0
      then ok (zero_32_bytes ∷ [])
      else locator_loop (suc t.next_height) t
          (elim max_size [ pos n ↦ n | negsuc n ↦ t.next_height ]) t.next_height 0 1

-- getConfirmations
unfoldable pub get_confirmations : BlockTree → Bytes → ℤ
get_confirmations t k = elim (t.headers k) [
  | none ↦ pos 0
  | some h ↦ if h.in_best_chain then minus t.next_height h.height else pos 0
]
