-- ===== src/Ipc.antt =====
-- backend/include/insightio/backend/ipc.hpp and backend/src/ipc/ipc.cpp: the local frame transport.
pub mod Ring
pub mod Channel
