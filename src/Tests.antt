-- ===== src/Tests.antt =====
-- The theorems applied to concrete values.
mod Data
mod Memory
mod Serialization
mod Arrays
mod Messages
mod Requests
mod Servers
mod Devices
mod Options
mod Clients
