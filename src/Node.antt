-- ===== src/Node.antt =====
-- internal/config and cmd/node: how a node is configured and what its program adds to its parts.
pub mod Config
pub mod Lists
pub mod Registrar
pub mod Program
