-- ===== src/Consensus.antt =====
-- internal/consensus
pub mod Quorum
pub mod Vote
pub mod Engine
pub mod Round
