-- ===== src/Vantage.antt =====
-- backend/app/protocol/vantage
pub mod Stamp
pub mod Archive
pub mod Validity
pub mod Loop
pub mod Link
pub mod Transfer
pub mod Snapshot
pub mod Poll
pub mod Eeprom
pub mod Text
pub mod Reply
pub mod Settings
pub mod Clock
pub mod Calibration
pub mod Diagnostics
pub mod Hilows
pub mod Sample
mod Tests
