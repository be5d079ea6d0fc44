-- ===== src/Dut.antt =====
-- src/dut_detect.c: the detection of the device under test, from single samples to a debounced presence.
pub mod Detect
pub mod Sample
pub mod Debounce
pub mod Autostart
pub mod Tasks
mod Tests
