-- ===== src/Tests.antt =====
-- Runs at concrete inputs, and the theorems applied there.
mod Codec
mod App
mod Sessions
mod Adapters
mod Connections
mod JsonConnections
mod Whole
mod Composed
mod Shutdown
