-- ===== src/PartialMerkleTree.antt =====
-- class PartialMerkleTree of deps/CoinCore/src/MerkleTree.cpp: which transactions of a block match
-- a filter, with the hashes that tie them to the block's Merkle root. The std::queue arguments that
-- the recursive functions consume are passed in and returned. `sha256_2` is a parameter.
mod Defs
pub mod Commit
pub mod RoundTrip
pub mod Flags
pub mod Serial
pub mod Merge
unfoldable pub use Defs.*
