-- ===== src/Bg96.antt =====
-- src/bg96Modem: the driver of the Quectel BG96. Its class is named Mc60Modem as well.
pub mod Responses
pub mod Outbox
pub mod State
pub mod Connections
pub mod Driver
pub mod Table
pub mod Run
