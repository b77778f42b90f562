-- ===== src/Mc60.antt =====
-- src/mc60Modem: the driver of the Quectel MC60.
pub mod Responses
pub mod Outbox
pub mod State
pub mod Driver
pub mod Table
pub mod Opening
pub mod Stream
pub mod Run
pub mod Client
