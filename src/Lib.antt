-- ===== src/Lib.antt =====
-- mSIGNA is a Bitcoin wallet. This library models the part of it that decides what the wallet
-- believes about the chain: the formats of the data that nodes send (deps/CoinCore), the Merkle
-- proofs in it, and the tree of block headers with its best chain (deps/CoinQ).
--
-- Bytes        deps/stdutils/src/uchar_vector.h, deps/CoinCore/src/numericdata.h. A byte vector is a
--              list of numbers below 256. `uint_to_vch` and `vch_to_uint` are the functions of the
--              same name. Bytes/Cursor and Bytes/Loop are the lemmas on reading at a position and on
--              the loops that read items one after the other.
-- VarInt       VarInt and VarString of deps/CoinCore/src/CoinNodeData.cpp.
-- Transaction  OutPoint, ScriptWitness, TxIn, TxOut and Transaction of the same file: `put_` is
--              getSerialized, `get_` is setSerialized, `_size` is getSize. Transaction/SigHash is
--              getSigHash with the three hashes that it caches, which are explicit state.
-- BlockHeader  CoinBlockHeader of the same file: its 80 bytes, its target and its work. The hashes that
--              an object keeps, and when they are reset, are in Message/Block/Cached.
-- Message      The messages between nodes of the same file: addresses, versions, inventories,
--              locators, filters, blocks and Merkle blocks. Message/Payload is the dispatch of
--              CoinNodeMessage::setSerialized on the command.
-- MerkleTree, PartialMerkleTree
--              deps/CoinCore/src/MerkleTree.cpp. A partial tree is built over leaves
--              (setUncompressed), sent as hashes and flag bytes, and rebuilt from them
--              (setCompressed); two of them can be merged. PartialMerkleTree/Merge/Marks has the leaves
--              of two trees at once, Trees the trees, Step and Walk follow merge node by node.
-- BlockTree    CoinQBlockTreeMem of deps/CoinQ/src/CoinQ_blocks.cpp. The two maps are functions,
--              pointers are hashes, and each operation returns the signals that it sends.
--              BlockTree/Queries has the queries, BlockTree/File loadFromFile and flushToFile.
--              BlockTree/Invariant is the invariant of the whole tree; BlockTree/Shape, Forest,
--              Descend, Raise, Reorg, Rejoin, Switch and Attach follow setBestChain and insertHeader
--              step by step, SetBest is about setBestChain alone, Genesis about setGenesisBlock; Lookup,
--              Before and Locator are about the queries, Undeletable about deleteHeader.
-- BloomFilter  deps/CoinCore/src/BloomFilter.cpp: murmurHash3 on 32-bit words, `insert` and `matches`
--              (match). The products that the constructor computes in floating point are parameters.
-- Tests        Runs on small inputs, and the theorems applied to them.
--
-- A block tree takes headers (BlockHeader), which arrive in headers messages and Merkle blocks
-- (Message); the Merkle block of a block holds the partial tree (PartialMerkleTree) over the hashes
-- of its transactions (Transaction).
--
-- A C++ exception is an error value of the type Result. A read past the end of a vector, which is
-- undefined in C++, is the error `out_of_range`. Positions are 32-bit and lengths 64-bit unsigned
-- integers that wrap around, as in the source. The signed fields of
-- a version message are integers, whose bytes `int_to_vch` writes as uint_to_vch does for a signed
-- type. An object that is read into is new, but for Inventory and CoinBlock, which keep what they
-- had. The double SHA-256 and the hashes of headers are parameters;
-- the hash of the Bloom filter is the one of the source.
--
-- Fuel: a Merkle root takes as many rounds as there are hashes, which is enough since each round
-- makes them fewer. The retrace of setBestChain takes one step more than the height of the header,
-- and the descent of unsetBestChain one more than the number of heights; a loop that is not over
-- then is the error `stuck`. So are the loops of the source that do not end. On a tree with the
-- invariant the fuel of both is enough. The loop over the buffer of loadFromFile has fuel for 65
-- records, one more than the buffer holds, and the loop over the file one step more than its bytes.
--
-- Not modelled: keys, curves and big numbers (calls of OpenSSL), hash functions and ciphers, the
-- wallet database, the network and the user interface, printing, and the file system.
pub mod Prelude
pub mod Result
pub mod Bytes
pub mod VarInt
pub mod MerkleTree
pub mod PartialMerkleTree
pub mod Transaction
pub mod BlockHeader
pub mod BlockTree
pub mod BloomFilter
pub mod Message
mod Tests
