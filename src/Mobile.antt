-- ===== src/Mobile.antt =====
-- mobile: the binding of the client for the native apps.
pub mod Session
pub mod Wallet
