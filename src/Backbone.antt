-- ===== src/Backbone.antt =====
-- crates/backbone: the local file distribution manager.
pub mod Writer
pub mod Guard
pub mod Record
pub mod Reader
pub mod Table
pub mod System
pub mod Accessor
pub mod Contract
pub mod World
