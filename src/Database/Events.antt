-- ===== src/Database/Events.antt =====
-- The domain events of the event emitter: the interfaces at the top of
-- src/modules/device/device.service.ts, device-ota.service.ts and notification.service.ts.
use aio_t_cloud.Base.{Text, ℕ, Option, List}
use aio_t_cloud.Constants.{DeviceStatus, DeviceOtaStatus, NotificationChannelType}
use aio_t_cloud.Dict.{Dict}
use aio_t_cloud.Json.{Json}

pub record DeviceActionResult : Type 0 where
  pub device_id : Text
  pub key : Text
  pub value : Option Text
  -- `status: 'error'` with its message, or `status: 'ok'`.
  pub failed : Option (Option Text)
  pub changed_at : ℕ

pub record DeviceOtaStatusEvent : Type 0 where
  pub device_id : Text
  pub status : DeviceOtaStatus
  pub version : Option Text
  pub progress : Option ℕ
  pub error : Option Text
  pub changed_at : ℕ

pub data Event : Type 0 where
  device_telemetry : (device_id : Text) (payload : Json) (recorded_at : ℕ) → Event
  device_status : (device_id : Text) (status : DeviceStatus) (changed_at : ℕ) → Event
  device_channel_state : (device_id : Text) (channel_states : Dict Text) (changed_at : ℕ) → Event
  device_action_result : DeviceActionResult → Event
  device_alert :
      (device_id message : Text) (channels : Option (List NotificationChannelType))
      (occurred_at : ℕ)
      → Event
  device_ota_status : DeviceOtaStatusEvent → Event
