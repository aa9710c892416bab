-- ===== src/Constants/KafkaTopics.antt =====
-- The Kafka topics of src/constants/kafka-topics.ts.
use aio_t_cloud.Base.{Text, codes}

abbrev pub telemetry : Text
telemetry = codes "devices.cloud.telemetry"

abbrev pub command : Text
command = codes "devices.cloud.commands"

abbrev pub gateway_commands : Text
gateway_commands = codes "devices.gateway.commands"

abbrev pub gateway_events : Text
gateway_events = codes "devices.gateway.events"

abbrev pub status : Text
status = codes "devices.cloud.status"

abbrev pub device_events : Text
device_events = codes "devices.cloud.events"

abbrev pub alert : Text
alert = codes "devices.cloud.alerts"

abbrev pub ota_status : Text
ota_status = codes "devices.cloud.ota"
