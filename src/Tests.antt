-- ===== src/Tests.antt =====
-- Runs of the model at concrete inputs.
mod Data
mod Wire
mod Hosts
mod Jobs
mod Routing
mod Storage
mod Clients
mod Windows
