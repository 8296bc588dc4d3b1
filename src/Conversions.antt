-- ===== src/Conversions.antt =====
-- up-transport-vsomeip/src/message_conversions.rs
pub mod Codes
pub mod Outbound
pub mod Inbound
pub mod Calling
