-- ===== src/Runtime.antt =====
-- The `ServingRuntimeRegistry` of backend/src/session_service.cpp.
pub mod State
pub mod Publication
pub mod Plan
pub mod Realize
pub mod Connections
pub mod Clients
pub mod Sessions
pub mod Views
pub mod Frames
