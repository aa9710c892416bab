-- ===== src/Mqtt.antt =====
-- Messages of the MQTT broker: src/modules/mqtt/mqtt.controller.ts, the registry of custom topics in
-- src/modules/mqtt/mqtt-topic-registry.service.ts, and `resolveCustomMqttTopic` of
-- src/modules/device/device.service.ts.
mod Lookup
mod Controller
pub mod Routing
pub mod Caching
unfoldable pub use Lookup.*
unfoldable pub use Controller.*
