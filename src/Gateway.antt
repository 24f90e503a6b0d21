-- ===== src/Gateway.antt =====
-- internal/grpcserver: the gateway that clients and relays talk to.
pub mod Registry
pub mod Wire
pub mod Proofs
pub mod Server
