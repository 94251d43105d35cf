-- ===== src/ArchiveSync.antt =====
-- The start-up synchronisation with the archive of a WeatherLink:
-- backend/app/services/archive_sync.py.
pub mod Stamp
pub mod Ring
pub mod Records
pub mod Project
pub mod Sync
mod Tests
