-- ===== src/Command.antt =====
-- Commands to devices: `triggerDeviceAction` and its companions in
-- src/modules/device/device.service.ts.
pub mod Guards
pub mod Outcome
use aio_t_cloud.Base.{
  Text, codes, ◌==◌, ℕ, Bool, true, false, not, ◌&&◌, Option, none, some, or_default, and_then,
  is_truthy, List, [], find?, if◌then◌else◌,
}
use aio_t_cloud.Constants.{
  DevicePushChannel, mqtt, http, kafka, DeviceActionType, toggle, button, bad_request,
  internal_server_error, not_found,
}
use aio_t_cloud.Constants.KafkaTopics
use aio_t_cloud.Entities.{Device, ActionFieldDefinition}
use aio_t_cloud.Json.{Json, str, obj, field, end, Printer}
use aio_t_cloud.Response.{Response, ok, fail, found, fail_if, ◌>>=◌, ◌>>◌}
use aio_t_cloud.Database.{
  Store, World, Brokers, Payload, command, direct_command, command_notice, applied, config_sync,
  kafka_send, mqtt_publish, find_owned, template_of,
}
use aio_t_cloud.Device.{ChannelEvent, handle_device_channel_event}

-- `TriggerDeviceActionDto`
pub record DeviceAction : Type 0 where
  pub key : Text
  pub value : Text

-- The data of a successful answer.
pub record ActionSent : Type 0 where
  pub key : Text
  pub value : Text
  pub topic : Text
  pub published_at : ℕ

pub record ConfigSyncSent : Type 0 where
  pub topic : Text
  pub config_version : ℕ
  pub published_at : ℕ

-- `value !== option`, where the option may be missing.
abbrev pub differs_from : Text → Option Text → Bool
differs_from value none = true
differs_from value (some v) = not (value == v)

abbrev pub is_toggle : DeviceActionType → Bool
is_toggle toggle = true
is_toggle button = false

-- A toggle takes its two values only.
abbrev pub is_invalid_value : ActionFieldDefinition → Text → Bool
is_invalid_value a value =
    is_toggle a.type && (differs_from value a.on_value && differs_from value a.off_value)

-- `pushChannel !== MQTT && pushChannel !== KAFKA`
abbrev pub is_uncommandable : DevicePushChannel → Bool
is_uncommandable mqtt = false
is_uncommandable kafka = false
is_uncommandable http = true

-- `channels?.find((channel) => channel.key === key)?.topic ?? topics?.command ?? undefined`
abbrev pub device_mqtt_topic : Device → Text → Option Text
device_mqtt_topic d key = and_then (and_then d.config (λ c. c.mqtt)) (λ m.
    elim (and_then (and_then m.topics.channels (find? (λ c. c.key == key))) (λ c. some c.topic)) [
      | none ↦ m.topics.command
      | some topic ↦ some topic
    ])

-- `device.config?.kafka?.commandTopic ?? KAFKA_GATEWAY_COMMANDS_TOPIC`
abbrev pub kafka_command_topic : Device → Text
kafka_command_topic d =
    or_default (and_then (and_then d.config (λ c. c.kafka)) (λ k. k.command_topic))
      KafkaTopics.gateway_commands

-- `{ key, value, status: 'ok' }`
abbrev pub optimistic_event : DeviceAction → ChannelEvent
optimistic_event a = record {
  key = some a.key;
  value = some (str a.value);
  topic = none;
  status = some (codes "ok");
  error = none;
  body = obj (
      field (codes "key") (str a.key)
        (field (codes "value") (str a.value) (field (codes "status") (str (codes "ok")) end)));
}

abbrev pub action_sent : ℕ → DeviceAction → Text → ActionSent
action_sent now a topic = record { key = a.key; value = a.value; topic = topic; published_at = now }

-- The topic to publish on, if it is configured.
abbrev pub named_topic : Option Text → Option Text
named_topic topic = and_then topic (λ t. if is_truthy t then some t else none)

abbrev is_kafka : DevicePushChannel → Bool
is_kafka kafka = true
is_kafka mqtt = false
is_kafka http = false

module _ {S : Store} where
  -- The guards of `triggerDeviceAction`.
  unfoldable pub action_target : Text → Text → DeviceAction → World S → Response Device
  action_target user_id id a w = do
    d ← found (find_owned user_id id w) (codes "error.deviceNotFound")
    definition ←
        elim (and_then (and_then (template_of d w) (λ t. t.action_schema))
          (find? (λ x. x.key == a.key))) [
            | none ↦ fail bad_request (codes "error.deviceActionNotFound")
            | some x ↦ ok x
          ]
    fail_if (is_invalid_value definition a.value) bad_request
        (codes "error.deviceActionInvalidValue")
    fail_if (is_uncommandable d.push_channel) bad_request
        (codes "error.deviceActionChannelUnsupported")
    ok d

  abbrev apply_optimistic :
      Printer → ℕ → Device → DeviceAction → Text → Bool × World S → Response ActionSent × World S
  apply_optimistic p now d a topic (false, w) =
      (fail internal_server_error (codes "error.deviceActionPublishFailed"), w)
  apply_optimistic p now d a topic (true, w) = (
    ok (action_sent now a topic),
    handle_device_channel_event p now d.device_id (optimistic_event a) w,
  )

  -- `triggerDeviceActionViaMqtt`
  unfoldable pub trigger_device_action_via_mqtt :
      Printer
      → Brokers
      → ℕ
      → Device
      → DeviceAction
      → Option Text
      → World S
      → Response ActionSent × World S
  trigger_device_action_via_mqtt p b now d a topic w = elim (named_topic topic) [
    | none ↦ (fail bad_request (codes "error.deviceActionTopicNotConfigured"), w)
    | some t ↦
        if b.mqtt_enabled
        then apply_optimistic p now d a t
            (mqtt_publish b t (direct_command d.device_id a.key a.value) w)
        else (fail bad_request (codes "error.mqttDisabled"), w)
  ]

  -- The direct publish to a device on the MQTT channel; its answer is not used.
  unfoldable pub publish_directly :
      Printer → Brokers → ℕ → Device → DeviceAction → World S → World S
  publish_directly p b now d a w = elim d.push_channel [
    | mqtt ↦ (trigger_device_action_via_mqtt p b now d a (device_mqtt_topic d a.key) w).1
    | _ ↦ w
  ]

  abbrev publish_applied : Brokers → Device → DeviceAction → Bool × World S → World S
  publish_applied b d a (false, w) = w
  publish_applied b d a (true, w) =
      (kafka_send b KafkaTopics.device_events (applied d.device_id a.key a.value) w).1

  -- The second `try` block: the notice, and the optimistic event if the notice went out.
  unfoldable pub publish_notices : Brokers → ℕ → Device → DeviceAction → World S → World S
  publish_notices b now d a w = publish_applied b d a (
      kafka_send b KafkaTopics.gateway_events
        (command_notice d.device_id a.key a.value (device_mqtt_topic d a.key) now) w)

  abbrev after_command :
      Printer → Brokers → ℕ → Device → DeviceAction → Bool × World S → Response ActionSent × World S
  after_command p b now d a (false, w) =
      (fail internal_server_error (codes "error.deviceActionPublishFailed"), w)
  after_command p b now d a (true, w) = (
    ok (action_sent now a (kafka_command_topic d)),
    publish_notices b now d a (publish_directly p b now d a w),
  )

  -- `triggerDeviceAction`
  unfoldable pub trigger_device_action :
      Printer → Brokers → ℕ → Text → Text → DeviceAction → World S → Response ActionSent × World S
  trigger_device_action p b now user_id id a w = elim (action_target user_id id a w) [
    | fail e m ↦ (fail e m, w)
    | ok d ↦ after_command p b now d a (
        kafka_send b (kafka_command_topic d)
          (command d.device_id a.key a.value (device_mqtt_topic d a.key)) w)
  ]

  abbrev after_config_sync : ℕ → Device → Bool × World S → Response ConfigSyncSent × World S
  after_config_sync now d (false, w) =
      (fail internal_server_error (codes "error.deviceActionPublishFailed"), w)
  after_config_sync now d (true, w) = (
    ok (record {
      topic = KafkaTopics.gateway_commands;
      config_version = d.config_version;
      published_at = now;
    }),
    w,
  )

  -- `pushConfigSync`
  unfoldable pub push_config_sync :
      Brokers → ℕ → Text → Text → World S → Response ConfigSyncSent × World S
  push_config_sync b now user_id id w = elim (find_owned user_id id w) [
    | none ↦ (fail not_found (codes "error.deviceNotFound"), w)
    | some d ↦
        if is_kafka d.push_channel
        then after_config_sync now d
            (kafka_send b KafkaTopics.gateway_commands (config_sync d.device_id d.config_version) w)
        else (fail bad_request (codes "error.deviceActionChannelUnsupported"), w)
  ]
