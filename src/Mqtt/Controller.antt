-- ===== src/Mqtt/Controller.antt =====
-- MqttController: a message is routed by the shape of its topic.
use aio_t_cloud.Base.{Text, ℕ, ◌||◌, none, some, is_some, if◌then◌else◌}
use aio_t_cloud.Json.{Json, Printer}
use aio_t_cloud.Topics.{
  telemetry_topic_regex, status_topic_regex, event_topic_regex, ota_status_topic_regex,
  command_topic_regex, channel_command_topic_regex, ota_topic_regex,
}
use aio_t_cloud.Database.{Store, World}
use aio_t_cloud.Device.{
  ChannelEvent, record_telemetry, handle_device_status_message, handle_device_channel_event,
}
use aio_t_cloud.Ota.{OtaStatusReport, handle_ota_status_report}
use aio_t_cloud.Mqtt.Lookup.{
  ResolvedMqttTopic, Registry, telemetry, status, event, command, look_up,
}

-- How the source's casts read a payload as an interface: `(data ?? {}) as DeviceChannelEventPayload`
-- and `data as Record<string, unknown>`. They check nothing, so that how a payload is read is a
-- parameter.
pub record Casts : Type 0 where
  pub channel_event : Json → ChannelEvent
  pub ota_report : Json → OtaStatusReport
  -- What the database reads of a `deviceId` that is no text, such as a number.
  pub device_id : Json → Text

-- What the `if`s of `handleAny` tell apart.
pub data Route : Type 0 where
  to_telemetry to_status to_event to_ota_status : (device_id : Text) → Route
  downlink : Route
  custom : Route

unfoldable pub route_of : Text → Route
route_of topic = elim (telemetry_topic_regex topic) [
  | some d ↦ to_telemetry d
  | none ↦ elim (status_topic_regex topic) [
    | some d ↦ to_status d
    | none ↦ elim (event_topic_regex topic) [
      | some d ↦ to_event d
      | none ↦ elim (ota_status_topic_regex topic) [
        | some d ↦ to_ota_status d
        | none ↦
            if is_some (command_topic_regex topic)
              || is_some (channel_command_topic_regex topic)
              || is_some (ota_topic_regex topic)
            then downlink
            else custom
      ]
    ]
  ]
]

module _ {S : Store} where
  -- `dispatchByRole`
  unfoldable pub dispatch_by_role :
      Printer → Casts → ℕ → ResolvedMqttTopic → Json → World S → World S
  dispatch_by_role p c now r payload w = elim r.role [
    | telemetry ↦ record_telemetry p now r.device_id payload w
    | status ↦ handle_device_status_message p now r.device_id payload w
    | event ↦ handle_device_channel_event p now r.device_id (c.channel_event payload) w
    | command ↦ w
  ]

  -- `resolveCustomTopic`
  unfoldable pub resolve_custom_topic :
      Printer → Casts → ℕ → Text → Json → Registry × World S → Registry × World S
  resolve_custom_topic p c now topic payload (r, w) =
      let r' = (look_up now topic r w).1 in
      elim (look_up now topic r w).0 [
        | none ↦ (r', w)
        | some found ↦ (r', dispatch_by_role p c now found payload w)
      ]

  -- `handleAny`
  unfoldable pub handle_any :
      Printer → Casts → ℕ → Text → Json → Registry × World S → Registry × World S
  handle_any p c now topic payload (r, w) = elim (route_of topic) [
    | to_telemetry d ↦ (r, record_telemetry p now d payload w)
    | to_status d ↦ (r, handle_device_status_message p now d payload w)
    | to_event d ↦ (r, handle_device_channel_event p now d (c.channel_event payload) w)
    | to_ota_status d ↦ (r, handle_ota_status_report now d (c.ota_report payload) w)
    | downlink ↦ (r, w)
    | custom ↦ resolve_custom_topic p c now topic payload (r, w)
  ]
