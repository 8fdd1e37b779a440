-- ===== src/Tests.antt =====
-- The theorems at concrete inputs.
mod Samples
mod Bus
mod BusMap
mod Deployer
mod Hil
mod Scope
mod Documents
mod Frontend
mod Connector
mod Server
mod Device
mod Startup
