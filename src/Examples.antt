-- ===== src/Examples.antt =====
-- A concrete JSON library and a concrete network, and the theorems at concrete inputs.
mod Codec
mod Wire
mod Messages
mod Transports
mod Workers
mod Logs
mod Handlers
mod Connections
mod Sessions
mod Configurations
mod Requests
mod Managers
mod Servers
mod Clients
mod Loops
mod Consoles
