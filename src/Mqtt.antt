-- ===== src/Mqtt.antt =====
-- The MQTT side (nightshift/integrations/mqtt and nightshift/domain/pressure_codec.py): the sensor, the
-- commands and what is published.
pub mod Json
pub mod PressureCodec
pub mod PressureAdapter
pub mod Topics
pub mod Schemas
pub mod CommandHandler
pub mod Documents
pub mod Publisher
pub mod Backoff
pub mod Client
