-- ===== src/Services/Iot.antt =====
-- bantu_os/services/iot/__init__.py: the device registry and the sensor store, the MQTT client, and
-- the tools of the service.
pub mod Devices
pub mod Window
pub mod Client
pub mod Tools
pub mod Connection
pub mod Topics
pub mod Publish
