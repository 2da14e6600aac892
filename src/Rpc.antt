-- ===== src/Rpc.antt =====
-- The messages of OCPP.
pub mod Actions
pub mod Value
pub mod Message
