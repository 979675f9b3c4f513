-- ===== src/Tests.antt =====
-- Runs of the model on small inputs, and the theorems applied to them.
mod Merkle
mod Wire
mod Signing
mod Blocks
mod Chain
mod Whole
mod Files
mod Filter
mod Endless
