-- ===== src/Message.antt =====
-- The messages between nodes, of deps/CoinCore/src/CoinNodeData.cpp, as bytes and back.
pub mod Address
pub mod Inventory
pub mod Block
pub mod Filter
pub mod Payload
