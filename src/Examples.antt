-- ===== src/Examples.antt =====
-- The theorems at concrete inputs, and test runs.
mod Link
mod Actions
mod Modes
mod Records
mod Sensor
mod Requests
mod Desk
mod Orders
mod Loops
mod Service
mod Tooling
mod Golden
