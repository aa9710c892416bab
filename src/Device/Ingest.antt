-- ===== src/Device/Ingest.antt =====
-- What arrives from a device: telemetry, status announcements and channel events.
use aio_t_cloud.Base.{
  Text, codes, ◌==◌, ℕ, Bool, not, Option, none, some, or_default, and_then, is_truthy, trim,
  to_upper, to_lower, [], if◌then◌else◌,
}
use mathlib.Core.Option
use aio_t_cloud.Constants.{DeviceStatus, online, offline, same_status, is_online}
use aio_t_cloud.Constants.KafkaTopics
use aio_t_cloud.Entities.{Device}
use aio_t_cloud.Json.{
  Json, str, obj, field, end, Printer, to_text, is_object, unless_null, string_of, member,
}
use aio_t_cloud.Dict.{Dict, insert}
use aio_t_cloud.Database.{
  Store, World, device_telemetry, device_status, device_channel_state, device_action_result, emit,
  find_by_device_id, update_device,
}
use aio_t_cloud.Device.Unclaimed.{record_unclaimed_device}

-- `payload && typeof payload === 'object' ? payload : { value: payload }`
abbrev pub normalized_payload : Json → Json
normalized_payload j = if is_object j then j else obj (field (codes "value") j end)

-- The changes that a sign of life makes.
abbrev pub seen_at : ℕ → Device → Device
seen_at now d = record d { last_seen_at = some now; status = online }

abbrev pub set_status : ℕ → DeviceStatus → Device → Device
set_status now online d = record d { status = online; last_seen_at = some now }
set_status now offline d = record d { status = offline }

-- The text that announces a status: `payload` itself, or its property `status`.
abbrev pub status_text : Json → Option Text
status_text (str s) = some s
status_text j = and_then (member (codes "status") j) string_of

abbrev pub status_of : Text → Option DeviceStatus
status_of s =
    if s == codes "ONLINE" then some online else if s == codes "OFFLINE" then some offline else none

-- `parseStatusPayload`
unfoldable pub parse_status_payload : Json → Option DeviceStatus
parse_status_payload j = and_then (status_text j) (λ s. status_of (to_upper (trim s)))

-- `DeviceChannelEventPayload`; `body` is the object as a whole.
pub record ChannelEvent : Type 0 where
  pub key : Option Text
  pub value : Option Json
  pub topic : Option Text
  pub status : Option Text
  pub error : Option Text
  pub body : Json

-- `(event.status ?? 'ok').trim().toLowerCase() === 'error'`
unfoldable pub has_failed : ChannelEvent → Bool
has_failed e = to_lower (trim (or_default e.status (codes "ok"))) == codes "error"

-- `event.key`, where it is not empty.
abbrev pub named_key : ChannelEvent → Option Text
named_key e = and_then e.key (λ k. if is_truthy k then some k else none)

-- `String(event.value ?? '')`
abbrev pub applied_value : Printer → ChannelEvent → Text
applied_value p e = to_text p (unless_null e.value (str []))

-- `{ ...(device.channelStates ?? {}), [event.key]: value }`
abbrev pub merged_states : Text → Text → Device → Dict Text
merged_states key value d = insert key value (or_default d.channel_states [])

module _ {S : Store} where
  -- `if (wasOffline) { emit('device.status', ...) }`
  abbrev pub announce_if : Bool → Text → DeviceStatus → ℕ → World S → World S
  announce_if changed device_id status now w =
      if changed then emit (device_status device_id status now) w else w

  -- The work of `recordTelemetry` for a known device.
  unfoldable pub store_telemetry : ℕ → Text → Json → Device → World S → World S
  store_telemetry now device_id payload d w =
      let normalized = normalized_payload payload in
      announce_if (not (is_online d.status)) device_id online now (
        emit (device_telemetry device_id normalized now) (record w {
          telemetry =
              S.telemetry_repository.save
                (record {
                  id = S.telemetry_repository.next_id w.telemetry;
                  device_id = d.id;
                  payload = normalized;
                  recorded_at = now;
                })
                w.telemetry;
          devices = S.device_repository.update (λ x. x.id == d.id) (seen_at now) w.devices;
        }))

  -- `recordTelemetry`
  unfoldable pub record_telemetry : Printer → ℕ → Text → Json → World S → World S
  record_telemetry p now device_id payload w = elim (find_by_device_id device_id w) [
    | none ↦ (record_unclaimed_device p now device_id (codes "telemetry") payload w).1
    | some d ↦ store_telemetry now device_id payload d w
  ]

  unfoldable pub store_status : ℕ → Text → DeviceStatus → Device → World S → World S
  store_status now device_id status d w =
      announce_if (not (same_status status d.status)) device_id status now
        (update_device d.id (set_status now status) w)

  -- `handleDeviceStatusMessage`
  unfoldable pub handle_device_status_message : Printer → ℕ → Text → Json → World S → World S
  handle_device_status_message p now device_id payload w = elim (find_by_device_id device_id w) [
    | none ↦ (record_unclaimed_device p now device_id (codes "status") payload w).1
    | some d ↦ elim (parse_status_payload payload) [
      | none ↦ w
      | some status ↦ store_status now device_id status d w
    ]
  ]

  -- The branch of a command that was not applied.
  unfoldable pub channel_failed : Printer → ℕ → Text → ChannelEvent → Device → World S → World S
  channel_failed p now device_id e d w =
      let w' = update_device d.id (seen_at now) w in
      let result = λ (key : Text).
        emit
          (device_action_result (record {
            device_id = device_id;
            key = key;
            value = Option.map (to_text p) e.value;
            failed = some e.error;
            changed_at = now;
          }))
          w' in
      announce_if (not (is_online d.status)) device_id online now
        (elim (named_key e) [ none ↦ w' | some key ↦ result key ])

  -- The branch of a channel's new state.
  unfoldable pub channel_applied :
      Printer → ℕ → Text → ChannelEvent → Text → Device → World S → World S
  channel_applied p now device_id e key d w =
      let value = applied_value p e in
      let states = merged_states key value d in
      announce_if (not (is_online d.status)) device_id online now (
        emit
          (device_action_result (record {
            device_id = device_id;
            key = key;
            value = some value;
            failed = none;
            changed_at = now;
          }))
          (emit (device_channel_state device_id states now) (
            update_device d.id
              (λ x. record x {
                channel_states = some states;
                last_seen_at = some now;
                status = online;
              })
              w)))

  -- `handleDeviceChannelEvent`, for a known device.
  unfoldable pub store_channel_event :
      Printer → ℕ → Text → ChannelEvent → Device → World S → World S
  store_channel_event p now device_id e d w =
      if has_failed e
      then channel_failed p now device_id e d w
      else elim (named_key e) [ none ↦ w | some key ↦ channel_applied p now device_id e key d w ]

  -- `handleDeviceChannelEvent`
  unfoldable pub handle_device_channel_event : Printer → ℕ → Text → ChannelEvent → World S → World S
  handle_device_channel_event p now device_id e w = elim (find_by_device_id device_id w) [
    | none ↦
        (record_unclaimed_device p now device_id (or_default e.topic KafkaTopics.device_events)
          e.body w).1
    | some d ↦ store_channel_event p now device_id e d w
  ]
