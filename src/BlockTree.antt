-- ===== src/BlockTree.antt =====
-- class CoinQBlockTreeMem of deps/CoinQ/src/CoinQ_blocks.h and CoinQ_blocks.cpp: the headers known,
-- and the best chain among them.
mod Defs
mod Queries
pub mod File
pub mod Links
pub mod BestChain
pub mod Extend
pub mod Delete
pub mod Shape
pub mod Forest
pub mod Descend
pub mod Raise
pub mod Reorg
pub mod Rejoin
pub mod Switch
pub mod Attach
pub mod Invariant
pub mod Genesis
pub mod Lookup
pub mod Before
pub mod Locator
pub mod SetBest
pub mod Undeletable
unfoldable pub use Defs.*
unfoldable pub use Queries.*
