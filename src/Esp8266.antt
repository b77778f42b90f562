-- ===== src/Esp8266.antt =====
-- src/esp8266: the driver of the ESP8266 Wi-Fi module.
pub mod Outbox
pub mod State
pub mod Driver
pub mod Table
pub mod Run
