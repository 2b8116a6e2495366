-- ===== src/Tests.antt =====
-- Runs of the theorems at concrete inputs.
mod Samples
mod Charts
mod Editing
mod Simulation
mod Devices
mod Simulating
mod Stations
mod Libraries
mod Monitoring
mod Pages
