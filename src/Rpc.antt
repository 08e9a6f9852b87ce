-- ===== src/Rpc.antt =====
-- The JSON-RPC package (pkg/rpc).
pub mod Wildcard
pub mod Principal
pub mod Acl
pub mod Message
pub mod Registry
pub mod Parse
pub mod Call
mod Tests
mod CallTests
