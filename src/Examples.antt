-- ===== src/Examples.antt =====
-- The theorems at concrete values, at which their conditions hold.
pub mod Toys
pub mod Messages
pub mod Pools
pub mod Ledgers
pub mod Votes
pub mod Rounds
pub mod Rivals
pub mod Stores
pub mod Gateways
pub mod Servers
pub mod Relays
pub mod Keyrings
pub mod Clients
pub mod Apps
pub mod Syncs
pub mod Programs
