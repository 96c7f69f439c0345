-- ===== src/Lndapi.antt =====
-- lndapi/: what the services ask of the lightning node.
pub mod Node
pub mod Payment
pub mod Fee
pub mod Macaroon
pub mod Conn
