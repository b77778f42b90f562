-- ===== src/Tests.antt =====
-- Runs at fixed inputs, and each theorem at an input that meets its hypotheses.
mod Bench
mod Parsing
mod Sending
mod Driving
mod Exchanges
mod Connecting
mod Wifi
mod Gsm
mod Histories
mod Ring
mod Others
mod Cards
mod Resends
