-- ===== src/Blockchain.antt =====
-- internal/blockchain
pub mod Transaction
pub mod Block
pub mod Chain
