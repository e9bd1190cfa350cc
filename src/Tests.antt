-- ===== src/Tests.antt =====
-- Runs on concrete inputs: tests by evaluation, and each theorem with hypotheses at an input that
-- meets them.
mod Labels
mod Routes
mod Paths
mod Bridge
mod Hellos
mod Engine
mod Leases
mod Update
mod Resolution
mod Wire
mod Observers
mod Hosts
mod Clients
mod Tunnels
mod Routers
mod Networks
