-- ===== src/Tests.antt =====
-- The theorems at concrete inputs, and runs of the driver.
mod Fixtures
mod Polling
mod Components
mod Facts
mod Trusting
mod Ending
mod Profiles
mod Wires
mod Commands
