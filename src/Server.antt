-- ===== src/Server.antt =====
-- bins/server: the HTTP service.
pub mod Http
pub mod Yeet
pub mod Yoink
pub mod Calls
pub mod Registry
pub mod Serve
pub mod Main
pub mod Health
pub mod Routes
pub mod Commands
pub mod Exchange
pub mod Delivery
pub mod Uploads
pub mod Handover
pub mod Integrity
