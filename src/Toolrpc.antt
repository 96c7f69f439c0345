-- ===== src/Toolrpc.antt =====
-- toolrpc/: the luck package and agency payment service.
pub mod Channels
pub mod Rows
pub mod Table
pub mod World
pub mod LuckPk
pub mod Spay
pub mod HeartBeat
pub mod Auth
pub mod Server
pub mod Rest
pub mod Monitor
