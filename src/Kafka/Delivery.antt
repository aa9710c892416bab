-- ===== src/Kafka/Delivery.antt =====
-- Where a message of a Kafka topic goes, and that it does what the same message over MQTT does.
use aio_t_cloud.Base.{
  Text, codes, ◌==◌, ℕ, none, some, ◌≡◌, ◌∙◌, refl, ap, arith, eq_iff, if◌then◌else◌,
}
use aio_t_cloud.Constants.KafkaTopics
use aio_t_cloud.Json.{Json, str, obj, Fields, end, field, Printer, property}
use aio_t_cloud.Topics.{
  default_telemetry_topic, default_status_topic, default_event_topic, default_ota_status_topic,
}
use aio_t_cloud.Topics.Parsing.{IsTopicLevel}
use aio_t_cloud.Database.{Store, World}
use aio_t_cloud.Device.{handle_device_alert}
use aio_t_cloud.Mqtt.{Casts, Registry, handle_any}
use aio_t_cloud.Mqtt.Routing.{route_of_lem}
use aio_t_cloud.Kafka.{
  without_key, Handler, handler_of, serve, handle_data, handle_message, parsed, device_of,
  telemetry_handler, status_handler, device_event_handler, alert_handler, ota_handler,
}

-- The body of a message has every property of the message but the device's id.
pub property-without_key :
    (j k : Text) (fs : Fields)
    → property k (without_key j fs) ≡ (if j == k then none else property k fs)
unfolding property without_key
property-without_key j k end = ground arith
property-without_key j k (field i v fs) =
    ground (arith, eq_iff j k, eq_iff i j, eq_iff i k, property-without_key j k fs)

-- The data of a message, less the device's id.
abbrev pub message_body : Fields → Json
message_body fs = obj (without_key (codes "deviceId") fs)

module _ {S : Store} (p : Printer) (c : Casts) (now : ℕ) (d : Text) (fs : Fields) (w : World S)
    (named : property (codes "deviceId") fs ≡ some (str d)) (level : IsTopicLevel d) where
  handle_message-serve :
      (topic : Text) (h : Handler)
      → handler_of topic ≡ some h
      → handle_message p c now topic (parsed (obj fs)) w ≡ serve p c now h d (message_body fs) w
  unfolding handle_message handle_data
  handle_message-serve topic h e =
      let device : device_of c (property (codes "deviceId") fs) ≡ some d =
        ap (device_of c) named ∙ rw level.0 in
      let served : handle_data p c now h (obj fs) w ≡ serve p c now h d (message_body fs) w =
        rw (device, handle_data) refl in
      rw (e, handle_message) served

  -- A message of a Kafka topic that names a device does to the state what its body does when it comes
  -- over the device's own MQTT topic: telemetry, status, channel events and OTA reports. The topic of
  -- the gateway's own changes is served as a channel event too, and the topic of alerts as an alert.
  pub handle_message-handle_any :
      (r : Registry)
      → ((r, handle_message p c now KafkaTopics.telemetry (parsed (obj fs)) w)
          ≡ handle_any p c now (default_telemetry_topic d) (message_body fs) (r, w))
        × ((r, handle_message p c now KafkaTopics.status (parsed (obj fs)) w)
            ≡ handle_any p c now (default_status_topic d) (message_body fs) (r, w))
        × ((r, handle_message p c now KafkaTopics.device_events (parsed (obj fs)) w)
            ≡ handle_any p c now (default_event_topic d) (message_body fs) (r, w))
        × ((r, handle_message p c now KafkaTopics.command (parsed (obj fs)) w)
            ≡ handle_any p c now (default_event_topic d) (message_body fs) (r, w))
        × ((r, handle_message p c now KafkaTopics.ota_status (parsed (obj fs)) w)
            ≡ handle_any p c now (default_ota_status_topic d) (message_body fs) (r, w))
        × (handle_message p c now KafkaTopics.alert (parsed (obj fs)) w
            ≡ handle_device_alert p now d (message_body fs) w)
  unfolding handle_any handler_of serve ◌==◌
  handle_message-handle_any r =
      let (telemetry, status, event, ota, _, _, _) = route_of_lem d level 0 in
      let deliver = λ (topic : Text) (h : Handler) (e : handler_of topic ≡ some h).
        ap {B = Registry × World S} (λ (x : World S). (r, x)) (handle_message-serve topic h e) in
      (
        deliver KafkaTopics.telemetry telemetry_handler refl ∙ rw (telemetry, handle_any) refl,
        deliver KafkaTopics.status status_handler refl ∙ rw (status, handle_any) refl,
        deliver KafkaTopics.device_events device_event_handler refl ∙ rw (event, handle_any) refl,
        deliver KafkaTopics.command device_event_handler refl ∙ rw (event, handle_any) refl,
        deliver KafkaTopics.ota_status ota_handler refl ∙ rw (ota, handle_any) refl,
        handle_message-serve KafkaTopics.alert alert_handler refl,
      )
