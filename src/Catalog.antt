-- ===== src/Catalog.antt =====
-- backend/include/insightio/backend/catalog.hpp and backend/src/catalog.cpp: the catalog of devices
-- and of the streams that they offer.
pub mod Unique
pub mod Profiles
pub mod Caps
pub mod Sources
pub mod Tables
pub mod Repository
pub mod Refresh
