-- ===== src/Tests.antt =====
-- Runs of the code over an in-memory database and a small node, and the theorems at concrete data.
mod Memory
mod Services
mod Payments
mod Callers
mod Loops
mod Startups
mod Rest
mod Tool
mod Streams
mod Packets
mod Proxy
mod Clients
