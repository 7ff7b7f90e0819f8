-- ===== src/Eth/Types.antt =====
-- Package eth/types.
pub mod MerkleTree
