-- ===== src/App.antt =====
-- app/fyne: the desktop and mobile messenger over the client.
pub mod Device
pub mod Chats
pub mod Service
pub mod Vault
