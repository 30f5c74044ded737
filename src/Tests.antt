-- ===== src/Tests.antt =====
-- Runs of the model over small stand-ins for the third-party crates, and the theorems at them.
mod Toy
mod Guards
mod Systems
mod Uploads
mod Downloads
mod Services
mod Messages
mod Backends
mod Contracts
mod Serving
mod Exchanges
mod Deliveries
mod Worlds
mod Handovers
