-- ===== src/Warning.antt =====
-- Warnings about readings: DeviceWarningListener in
-- src/modules/notification/listeners/device-warning.listener.ts. A warning is one call of
-- `notificationService.sendWarning`; what its message says is kept as data.
pub mod Agreement
use aio_t_cloud.Base.{
  Text, ◌==◌, ℕ, Bool, true, false, ◌||◌, Option, none, some, and_then, is_some, List, [], ◌∷◌,
  if◌then◌else◌,
}
use aio_t_cloud.Constants.{DeviceStatus, online, offline, NotificationChannelType}
use aio_t_cloud.Number.{Number}
use aio_t_cloud.Json.{Json}
use aio_t_cloud.Entities.{
  Device, TelemetryFieldDefinition, DeviceWarningThreshold, DeviceOfflineAlertConfig,
}
use aio_t_cloud.Database.{
  Store, World, Event, device_telemetry, device_status, device_channel_state, device_action_result,
  device_alert, device_ota_status, find_by_device_id, template_of,
}
use aio_t_cloud.Lifecycle.{
  reading_of, override_of, is_disabled, lower_bound, upper_bound, is_outside,
}

-- The result of `checkThreshold`.
pub record Breach : Type 0 where
  pub min : Option Number
  pub max : Option Number
  pub channels : Option (List NotificationChannelType)

-- `checkThreshold`
unfoldable pub check_threshold :
    TelemetryFieldDefinition → Number → Option DeviceWarningThreshold → Option Breach
check_threshold f value t =
    let lower = lower_bound f t in
    let upper = upper_bound f t in
    if is_disabled t
    then none
    else if is_some lower || is_some upper
    then if is_outside lower upper value
      then some (record { min = lower; max = upper; channels = and_then t (λ o. o.channels) })
      else none
    else none

-- What a message is about; the texts of the messages are for people.
pub data Message : Type 0 where
  outside : (device_name label : Text) (value : Number) (breach : Breach) → Message
  went_silent : (device_name : Text) → Message
  reported : (message : Text) → Message

-- One call of `sendWarning(userId, message, channels, deviceId)`.
pub record Warning : Type 0 where
  pub user_id : Text
  pub message : Message
  pub channels : Option (List NotificationChannelType)
  pub device_id : Text

abbrev pub outside_warning : Device → TelemetryFieldDefinition → Number → Breach → Warning
outside_warning d f value b = record {
  user_id = d.user_id;
  message = outside d.name f.label value b;
  channels = b.channels;
  device_id = d.id;
}

-- The body of the loop of `handleTelemetry`.
unfoldable pub field_warning : Device → Json → TelemetryFieldDefinition → Option Warning
field_warning d payload f = elim (reading_of f.key payload) [
  | none ↦ none
  | some value ↦ elim (check_threshold f value (override_of d f.key)) [
    | none ↦ none
    | some b ↦ some (outside_warning d f value b)
  ]
]

abbrev pub with_some {ℓ} : {A : Type ℓ} → Option A → List A → List A
with_some none xs = xs
with_some (some x) xs = x ∷ xs

-- The loop of `handleTelemetry`.
unfoldable pub field_warnings : Device → Json → List TelemetryFieldDefinition → List Warning
field_warnings d payload [] = []
field_warnings d payload (f ∷ fs) =
    with_some (field_warning d payload f) (field_warnings d payload fs)

-- `device?.offlineAlert?.enabled`
abbrev pub offline_alert_of : Device → Option DeviceOfflineAlertConfig
offline_alert_of d = and_then d.offline_alert (λ a. if a.enabled then some a else none)

module _ {S : Store} where
  -- `handleTelemetry`
  unfoldable pub handle_telemetry : Text → Json → World S → List Warning
  handle_telemetry device_id payload w = elim (find_by_device_id device_id w) [
    | none ↦ []
    | some d ↦ elim (and_then (template_of d w) (λ t. t.telemetry_schema)) [
      | none ↦ []
      | some schema ↦ field_warnings d payload schema
    ]
  ]

  -- `handleStatusChange`
  unfoldable pub handle_status_change : Text → DeviceStatus → World S → List Warning
  handle_status_change device_id online w = []
  handle_status_change device_id offline w = elim (find_by_device_id device_id w) [
    | none ↦ []
    | some d ↦ elim (offline_alert_of d) [
      | none ↦ []
      | some a ↦
          record {
            user_id = d.user_id;
            message = went_silent d.name;
            channels = a.channels;
            device_id = d.id;
          }
          ∷ []
    ]
  ]

  -- `handleAlert`
  unfoldable pub handle_alert :
      Text → Text → Option (List NotificationChannelType) → World S → List Warning
  handle_alert device_id message channels w = elim (find_by_device_id device_id w) [
    | none ↦ []
    | some d ↦
        record {
          user_id = d.user_id;
          message = reported message;
          channels = channels;
          device_id = d.id;
        }
        ∷ []
  ]

  -- The listener's reaction to an event.
  unfoldable pub warnings_on : Event → World S → List Warning
  warnings_on (device_telemetry device_id payload t) w = handle_telemetry device_id payload w
  warnings_on (device_status device_id status t) w = handle_status_change device_id status w
  warnings_on (device_channel_state device_id states t) w = []
  warnings_on (device_action_result r) w = []
  warnings_on (device_alert device_id message channels t) w =
      handle_alert device_id message channels w
  warnings_on (device_ota_status e) w = []
