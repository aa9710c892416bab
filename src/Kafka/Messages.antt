-- ===== src/Kafka/Messages.antt =====
-- `handleMessage` and the handlers that it chooses by topic.
use aio_t_cloud.Base.{
  Text, codes, ◌==◌, ◌||◌, ℕ, true, Option, none, some, nat_eq, is_truthy, if◌then◌else◌,
}
use aio_t_cloud.Constants.KafkaTopics
use aio_t_cloud.Json.{Json, str, num, bool, arr, obj, Fields, end, field, Printer, property}
use aio_t_cloud.Database.{Store, World}
use aio_t_cloud.Device.{
  record_telemetry, handle_device_status_message, handle_device_channel_event, handle_device_alert,
}
use aio_t_cloud.Ota.{handle_ota_status_report}
use aio_t_cloud.Mqtt.{Casts}

-- `const { deviceId, ...rest } = data`: the other properties. The keys of an object are distinct.
unfoldable pub without_key : Text → Fields → Fields
without_key k end = end
without_key k (field j v fs) =
    let rest = without_key k fs in if j == k then rest else field j v rest

-- What the `switch` on the topic tells apart.
pub data Handler : Type 0 where
  telemetry_handler status_handler device_event_handler alert_handler ota_handler : Handler

unfoldable pub handler_of : Text → Option Handler
handler_of topic =
    if topic == KafkaTopics.telemetry
    then some telemetry_handler
    else if topic == KafkaTopics.status
    then some status_handler
    else if topic == KafkaTopics.device_events || topic == KafkaTopics.command
    then some device_event_handler
    else if topic == KafkaTopics.alert
    then some alert_handler
    else if topic == KafkaTopics.ota_status
    then some ota_handler
    else none

-- `message.value`: none or an empty text, which is read as `{}`, a text that `JSON.parse` throws on, or
-- what it returns.
pub data MessageValue : Type 0 where
  empty malformed : MessageValue
  parsed : Json → MessageValue

-- `deviceId`, unless `!deviceId` holds of it.
abbrev pub device_of : Casts → Option Json → Option Text
device_of c (some (str d)) = if is_truthy d then some d else none
device_of c (some (num n)) = if nat_eq n.numerator 0 then none else some (c.device_id (num n))
device_of c (some (bool true)) = some (c.device_id (bool true))
device_of c (some (arr xs)) = some (c.device_id (arr xs))
device_of c (some (obj fs)) = some (c.device_id (obj fs))
device_of c _ = none

module _ {S : Store} where
  -- The call of a service that a handler makes, for a device that it names.
  unfoldable pub serve : Printer → Casts → ℕ → Handler → Text → Json → World S → World S
  serve p c now telemetry_handler d body w = record_telemetry p now d body w
  serve p c now status_handler d body w = handle_device_status_message p now d body w
  serve p c now device_event_handler d body w =
      handle_device_channel_event p now d (c.channel_event body) w
  serve p c now alert_handler d body w = handle_device_alert p now d body w
  serve p c now ota_handler d body w = handle_ota_status_report now d (c.ota_report body) w

  -- `handleTelemetry`, `handleStatus`, `handleDeviceEvent`, `handleAlert` and `handleOtaStatus`: each
  -- takes `deviceId` out of the data and ignores a message without it.
  unfoldable pub handle_data : Printer → Casts → ℕ → Handler → Json → World S → World S
  unfolding without_key serve
  handle_data p c now h (obj fs) w = elim (device_of c (property (codes "deviceId") fs)) [
    | some d ↦ serve p c now h d (obj (without_key (codes "deviceId") fs)) w
    | none ↦ w
  ]
  handle_data p c now h _ w = w

  -- `handleMessage`
  unfoldable pub handle_message : Printer → Casts → ℕ → Text → MessageValue → World S → World S
  unfolding handler_of handle_data
  handle_message p c now topic malformed w = w
  handle_message p c now topic empty w = w
  handle_message p c now topic (parsed body) w = elim (handler_of topic) [
    | none ↦ w
    | some h ↦ handle_data p c now h body w
  ]
