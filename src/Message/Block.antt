-- ===== src/Message/Block.antt =====
-- CoinBlock, MerkleBlock and HeadersMessage of deps/CoinCore/src/CoinNodeData.cpp.
pub mod RoundTrip
pub mod Whole
pub mod Height
pub mod Cached
use m_signa.Prelude.{
  ℕ, zero, suc, ◌+◌, ◌*◌, ◌%◌, ◌^◌, List, [], ◌∷◌, ◌++◌, Bool, true, false, ◌||◌, ltb, leb, ◌==◌,
  if◌then◌else◌, Option, none, some, length, map, reverse, take, drop,
}
use m_signa.Result.{Result, ok, err, guard, ◌>>=◌, ◌>>◌}
use m_signa.Bytes.{
  Bytes, add32, add64, bytes_eq, Error, too_small, length_wrong, root_mismatch, no_height,
  little_endian, uint_to_vch, uint_at, slice, suffix,
}
use m_signa.Bytes.Loop.{flat, read_fixed}
use m_signa.VarInt.{var_int_size, put_var_int, get_var_int}
use m_signa.Transaction.{Transaction, tx_size, put_tx, get_tx, sum_of}
use m_signa.BlockHeader.{BlockHeader, put_header, get_header}
use m_signa.MerkleTree.{get_root, get_root_little_endian}
use m_signa.PartialMerkleTree as Partial
use m_signa.PartialMerkleTree.{PartialMerkleTree, set_compressed, get_flags}

pub record CoinBlock : Type 0 where
  pub header : BlockHeader
  pub txs : List Transaction

-- CoinBlock::getSize
unfoldable pub block_size : CoinBlock → ℕ
block_size b = 80 + var_int_size (length b.txs) + sum_of (tx_size true) b.txs

-- CoinBlock::getSerialized
unfoldable pub put_block : CoinBlock → Bytes
put_block b = put_header b.header ++ (put_var_int (length b.txs) ++ flat (put_tx true) b.txs)

-- The loop of CoinBlock::setSerialized over the transactions.
unfoldable pub read_txs : ℕ → Bytes → ℕ → Result Error (List Transaction)
read_txs zero bytes pos = ok []
read_txs (suc count) bytes pos = do
  rest ← suffix pos bytes
  tx ← get_tx rest
  let pos' = add32 pos (tx_size true tx)
  guard (leb pos' (length bytes)) length_wrong
  txs ← read_txs count bytes pos'
  ok (tx ∷ txs)

module _ (sha256_2 : Bytes → Bytes) where
  -- Transaction::getHash, the hash without the witnesses.
  abbrev pub tx_hash : Transaction → Bytes
  tx_hash tx = sha256_2 (put_tx false tx)

  -- CoinBlock::setSerialized, on a block that holds the transactions `old`: they stay, in front of
  -- those that are read, and only the latter enter the Merkle root.
  unfoldable pub get_block : List Transaction → Bytes → Result Error CoinBlock
  get_block old bytes = do
    guard (leb 140 (length bytes)) too_small
    header ← get_header bytes
    rest ← suffix 80 bytes
    count ← get_var_int rest
    txs ← read_txs count bytes (add32 80 (var_int_size count))
    guard (bytes_eq header.merkle_root (get_root_little_endian sha256_2 (map tx_hash txs)))
        root_mismatch
    ok (record { header = header; txs = old ++ txs })

  -- CoinBlock::isValidMerkleRoot
  unfoldable pub is_valid_merkle_root : CoinBlock → Bool
  is_valid_merkle_root b =
      bytes_eq b.header.merkle_root (get_root_little_endian sha256_2 (map tx_hash b.txs))

  -- CoinBlock::updateMerkleRoot
  unfoldable pub update_merkle_root : CoinBlock → CoinBlock
  update_merkle_root b = record b {
    header = record b.header { merkle_root = get_root_little_endian sha256_2 (map tx_hash b.txs) };
  }

-- The loop of CoinBlock::getHeight: `height += byte * coef; coef *= 256`.
abbrev pub height_loop : Bytes → (height coef : ℕ) → ℕ
height_loop [] height coef = height
height_loop (b ∷ bs) height coef = height_loop bs (height + b * coef) (coef * 256)

-- The height that the first script of a block of version 2 begins with. A failed assertion and an
-- overflow of int64_t, which more than 7 bytes lead to, are the error `no_height`.
unfoldable pub height_of_script : Bytes → Result Error ℕ
height_of_script [] = err no_height
height_of_script (n ∷ bytes) = do
  guard (ltb n (suc (length bytes))) no_height
  guard (leb n 7) no_height
  ok (height_loop (take n bytes) 0 1)

-- CoinBlock::getHeight. `none` is the -1 of a block of version 0 or 1. The version is unsigned.
unfoldable pub get_height : CoinBlock → Result Error (Option ℕ)
get_height b = if ltb b.header.version 2 then ok none else elim b.txs [
  | [] ↦ err no_height
  | tx ∷ txs ↦ elim tx.inputs [
    | [] ↦ err no_height
    | i ∷ is ↦ (height_of_script i.script_sig >>= λ h. ok (some h))
  ]
]

pub record MerkleBlock : Type 0 where
  pub header : BlockHeader
  pub n_txs : ℕ
  pub hashes : List Bytes
  pub flags : Bytes

-- The constructor MerkleBlock(merkleTree, ...); `header` has the other fields.
abbrev pub merkle_block_of : PartialMerkleTree → BlockHeader → MerkleBlock
merkle_block_of p header = record {
  header = record header { merkle_root = reverse p.tree.root };
  n_txs = p.n_txs;
  hashes = p.tree.merkle_hashes;
  flags = get_flags p.tree.bits;
}

-- MerkleBlock::merkleTree
abbrev pub merkle_tree : (Bytes → Bytes) → MerkleBlock → Result Partial.Error PartialMerkleTree
merkle_tree sha256_2 b = set_compressed sha256_2 b.n_txs b.hashes b.flags b.header.merkle_root

-- MerkleBlock::getSize
unfoldable pub merkle_block_size : MerkleBlock → ℕ
merkle_block_size b =
    80
    + 4
    + var_int_size (length b.hashes)
    + length b.hashes * 32
    + var_int_size (length b.flags)
    + length b.flags

-- MerkleBlock::getSerialized
unfoldable pub put_merkle_block : MerkleBlock → Bytes
put_merkle_block b =
    put_header b.header
    ++ (uint_to_vch 4 b.n_txs little_endian
        ++ (put_var_int (length b.hashes)
            ++ (flat (λ (h : Bytes). h) b.hashes ++ (put_var_int (length b.flags) ++ b.flags))))

abbrev pub get_hash : Bytes → Result Error Bytes
get_hash hash = ok hash

-- MerkleBlock::setSerialized
unfoldable pub get_merkle_block : Bytes → Result Error MerkleBlock
get_merkle_block bytes = do
  guard (leb 86 (length bytes)) too_small
  header ← get_header bytes
  n_txs ← uint_at 4 80 bytes little_endian
  rest1 ← suffix 84 bytes
  n_hashes ← get_var_int rest1
  let pos1 = add32 84 (var_int_size n_hashes)
  guard (leb ((pos1 + n_hashes * 32 + 1) % 2 ^ 64) (length bytes)) length_wrong
  (hashes, pos2) ← read_fixed get_hash 32 32 n_hashes bytes pos1
  rest2 ← suffix pos2 bytes
  n_flags ← get_var_int rest2
  let pos3 = add32 pos2 (var_int_size n_flags)
  guard (leb (add64 pos3 n_flags) (length bytes)) length_wrong
  flags ← slice pos3 (pos3 + n_flags) bytes
  ok (record { header = header; n_txs = n_txs; hashes = hashes; flags = flags })

-- HeadersMessage::getSize
unfoldable pub headers_message_size : List BlockHeader → ℕ
headers_message_size headers = var_int_size (length headers) + length headers * 81

-- A header and the blank byte behind it.
abbrev pub put_header_item : BlockHeader → Bytes
put_header_item h = put_header h ++ (0 ∷ [])

-- HeadersMessage::getSerialized
unfoldable pub put_headers_message : List BlockHeader → Bytes
put_headers_message headers = put_var_int (length headers) ++ flat put_header_item headers

-- HeadersMessage::setSerialized
unfoldable pub get_headers_message : Bytes → Result Error (List BlockHeader)
get_headers_message bytes = do
  count ← get_var_int bytes
  guard (leb ((var_int_size count + count * 81) % 2 ^ 64) (length bytes)) too_small
  (headers, end) ← read_fixed get_header 80 81 count bytes (var_int_size count)
  ok headers
