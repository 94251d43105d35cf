-- ===== src/WeatherLink.antt =====
-- The legacy WeatherLink: backend/app/protocol/link_driver.py over the serial link of `Vantage.Link`, which
-- both drivers share, with the commands of commands.py, the packets of
-- loop_packet.py and the addresses of memory_map.py, all beside it. The stop that another thread
-- requests is never taken back, so a test of it before and after a step that sends nothing is one test.
pub mod Commands
pub mod Memory
pub mod Registers
pub mod Clock
pub mod Calibration
pub mod Packet
pub mod Loop
pub mod Driver
mod Tests
