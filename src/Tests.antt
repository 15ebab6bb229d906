-- ===== src/Tests.antt =====
-- Runs of the operations at concrete values.
mod Managers
mod Linked
mod Streams
mod Events
mod Archives
mod Loads
mod Logs
mod Cores
mod Owners
mod Sockets
