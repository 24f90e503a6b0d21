-- ===== src/Client.antt =====
-- pkg/crypto and pkg/client: the keys of a user, and the client over the gateways.
pub mod Primitives
pub mod Keys
pub mod Sealing
pub mod Wallet
pub mod Envelope
pub mod ContactCode
pub mod Discovery
pub mod History
pub mod Sending
pub mod Listening
