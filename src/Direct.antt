-- ===== src/Direct.antt =====
-- `SessionService` of backend/src/session_service.cpp: the sessions that ask for a stream.
pub mod Rows
pub mod Service
pub mod Lifecycle
pub mod Changes
pub mod Failed
