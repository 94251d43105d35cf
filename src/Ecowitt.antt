-- ===== src/Ecowitt.antt =====
-- The driver of an Ecowitt gateway: backend/app/protocol/ecowitt/protocol.py, sensors.py and driver.py, with
-- the tables of constants.py.
pub mod Protocol
pub mod Sensors
pub mod Driver
mod Tests
