-- ===== src/Tests/Blocks.antt =====
-- A block, its height, and the Merkle block of its tree, under a hash of 32 bytes.
use m_signa.Prelude.{
  ◌^◌, ◌<◌, ◌≤◌, ◌≡◌, refl, List, [], ◌∷◌, ◌++◌, true, false, some, length, replicate, arith,
}
use m_signa.Result.{ok}
use m_signa.Bytes.{Bytes, uint_to_vch, low_bytes}
use m_signa.Bytes.Loop.{flat}
use m_signa.VarInt.{put_var_int}
use m_signa.BlockHeader.{BlockHeader, put_header, header_hash}
use m_signa.MerkleTree.{get_root_little_endian, tree_depth}
use m_signa.PartialMerkleTree.{PartialMerkleTree, MerkleLeaf, set_uncompressed, get_flags}
use m_signa.Transaction.{TxIn, put_tx, put_tx_in, put_tx_out, put_out_point, put_witness, put_item}
use m_signa.Message.Block.{
  CoinBlock, put_block, get_block, is_valid_merkle_root, get_height, MerkleBlock, merkle_block_of,
  merkle_tree, put_merkle_block, get_merkle_block,
}
use m_signa.Message.Block.RoundTrip.{IsMerkleBlock, merkle_tree-get_merkle_block}
use m_signa.Message.Block.Whole.{IsBlock, get_block-put_block}
use m_signa.Message.Block.Cached.{
  CachedHeader, new_header, Operation, hash_asked, root_updated, pow_hash_asked, nonce_incremented,
  bytes_read, run_all, get_hash, get_hash_little_endian, get_pow_hash, get_pow_hash_little_endian,
  get_hash-run_all,
}
use m_signa.Message.Block.Height.{get_height-low_bytes}
use m_signa.Tests.Signing.{an_input, a_tx, a_tx-IsTransaction}

-- The first byte, 32 times.
abbrev wide_hash : Bytes → Bytes
wide_hash [] = replicate 32 7
wide_hash (b ∷ bs) = replicate 32 b

abbrev block_header : Bytes → BlockHeader
block_header root = record {
  version = 2;
  prev_block_hash = replicate 32 1;
  merkle_root = root;
  timestamp = 1400000000;
  bits = 486604799;
  nonce = 77;
}

abbrev a_block : CoinBlock
a_block = record { header = block_header (replicate 32 1); txs = a_tx ∷ [] }

a_block_sizes :
    (140 ≤ length (put_block a_block ++ [])) × (length (put_block a_block ++ []) < 2 ^ 32)
unfolding put_block put_header put_tx put_tx_in put_tx_out put_out_point put_witness put_item flat
    put_var_int uint_to_vch low_bytes
a_block_sizes = (omega arith, omega arith)

a_block-IsBlock : IsBlock a_block []
a_block-IsBlock = record {
  header = record {
    version_u32 = omega arith;
    prev_size = refl;
    root_size = refl;
    timestamp_u32 = omega arith;
    bits_u32 = omega arith;
    nonce_u32 = omega arith;
  };
  txs = (a_tx-IsTransaction, tt);
  few = omega arith;
  long = a_block_sizes.0;
  short = a_block_sizes.1;
}

block_root : is_valid_merkle_root wide_hash a_block ≡ true
unfolding is_valid_merkle_root get_root_little_endian put_tx uint_to_vch low_bytes
block_root = refl

-- A block object that has been read into before keeps its transactions.
get_block-put_block_example :
    get_block wide_hash (a_tx ∷ []) (put_block a_block ++ [])
    ≡ ok (record a_block { txs = a_tx ∷ (a_tx ∷ []) })
get_block-put_block_example =
    get_block-put_block wide_hash (a_tx ∷ []) a_block [] a_block-IsBlock block_root

abbrev coinbase : TxIn
coinbase = record an_input { script_sig = 3 ∷ 224 ∷ 147 ∷ 4 ∷ 88 ∷ [] }

abbrev high_block : CoinBlock
high_block = record {
  header = block_header (replicate 32 1);
  txs = record a_tx { inputs = coinbase ∷ [] } ∷ [];
}

coinbase_script : coinbase.script_sig ≡ 3 ∷ (low_bytes 3 300000 ++ (88 ∷ []))
unfolding low_bytes
coinbase_script = refl

get_height-low_bytes_example : get_height high_block ≡ ok (some 300000)
get_height-low_bytes_example =
    get_height-low_bytes high_block (record a_tx { inputs = coinbase ∷ [] }) [] coinbase [] 3 300000
      (88 ∷ []) (omega arith) refl refl coinbase_script (omega arith) (omega arith)

abbrev wide_leaves : List MerkleLeaf
wide_leaves = (replicate 32 1, true) ∷ (replicate 32 2, false) ∷ []

abbrev wide_tree : PartialMerkleTree
wide_tree = record {
  n_txs = 2;
  tree = record {
    depth = 1;
    merkle_hashes = replicate 32 1 ∷ replicate 32 2 ∷ [];
    tx_hashes = replicate 32 1 ∷ [];
    bits = true ∷ true ∷ false ∷ [];
    root = replicate 32 1;
  };
  tx_indices = 0 ∷ [];
}

wide_built : set_uncompressed wide_hash wide_leaves ≡ ok wide_tree
unfolding set_uncompressed tree_depth
wide_built = refl

abbrev wide_block : MerkleBlock
wide_block = merkle_block_of wide_tree (block_header [])

wide_flag : 0 < length wide_block.flags
unfolding get_flags
wide_flag = omega arith

wide_block-IsMerkleBlock : IsMerkleBlock wide_block
wide_block-IsMerkleBlock = record {
  header = record {
    version_u32 = omega arith;
    prev_size = refl;
    root_size = refl;
    timestamp_u32 = omega arith;
    bits_u32 = omega arith;
    nonce_u32 = omega arith;
  };
  n_txs_u32 = omega arith;
  hash_sizes = (refl, (refl, tt));
  some_flag = wide_flag;
}

wide_short : length (put_merkle_block wide_block ++ []) < 2 ^ 32
unfolding put_merkle_block put_header get_flags flat put_var_int uint_to_vch low_bytes
wide_short = omega arith

merkle_tree-get_merkle_block_example :
    (b : MerkleBlock) × (get_merkle_block (put_merkle_block wide_block ++ []) ≡ ok b)
    × (merkle_tree wide_hash b ≡ ok wide_tree)
merkle_tree-get_merkle_block_example =
    merkle_tree-get_merkle_block wide_hash wide_leaves wide_tree (block_header []) [] wide_built
      wide_block-IsMerkleBlock wide_short

-- The hash is asked for, then the Merkle root and the nonce change.
abbrev some_operations : List Operation
some_operations =
    hash_asked
    ∷ root_updated (a_tx ∷ [])
    ∷ pow_hash_asked
    ∷ nonce_incremented
    ∷ bytes_read (1 ∷ [])
    ∷ []

abbrev last_header : CachedHeader
last_header =
    run_all wide_hash wide_hash wide_hash some_operations
      (new_header (block_header (replicate 32 9)))

get_hash-run_all_example :
    ((get_hash wide_hash last_header).0 ≡ wide_hash (put_header last_header.header))
    × ((get_hash_little_endian wide_hash last_header).0 ≡ header_hash wide_hash last_header.header)
    × ((get_pow_hash wide_hash last_header).0 ≡ wide_hash (put_header last_header.header))
    × ((get_pow_hash_little_endian wide_hash last_header).0
        ≡ header_hash wide_hash last_header.header)
get_hash-run_all_example =
    get_hash-run_all wide_hash wide_hash wide_hash some_operations (block_header (replicate 32 9))
