-- ===== src/Transaction.antt =====
-- Transactions: OutPoint, ScriptWitness, TxIn, TxOut and Transaction of
-- deps/CoinCore/src/CoinNodeData.cpp.
mod Defs
pub mod Parts
pub mod Body
pub mod RoundTrip
pub mod Size
pub mod SigHash
pub mod Digest
unfoldable pub use Defs.*
