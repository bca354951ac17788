-- ===== src/Uart.antt =====
-- The UART link to the T5 panel (nightshift/hardware/uart).
pub mod Cobs
pub mod Crc
pub mod Framing
pub mod Reader
pub mod Text
pub mod Frame
pub mod Encode
pub mod Parse
pub mod Session
pub mod Gateway
