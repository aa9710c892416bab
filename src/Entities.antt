-- ===== src/Entities.antt =====
-- The rows of the database and the values that they hold: the entities of src/modules, and
-- src/modules/device/interfaces/device-network-config.interface.ts. Dates are milliseconds. A
-- column that is NULL, and an optional property that is missing, are `none`. A health weight is in
-- millionths.
use aio_t_cloud.Base.{ℕ, Text, Bool, Option, List}
use aio_t_cloud.Constants.{
  DeviceStatus, DevicePushChannel, DeviceTemplateType, DeviceActionType, DeviceLifecycleStage,
  DeviceOtaStatus, AssetHealthStatus, NotificationChannelType,
}
use aio_t_cloud.Number.{Number}
use aio_t_cloud.Dict.{Dict}
use aio_t_cloud.Json.{Json}

pub record TelemetryFieldDefinition : Type 0 where
  pub key : Text
  pub label : Text
  pub unit : Option Text
  pub warning_min : Option Number
  pub warning_max : Option Number

pub record ActionFieldDefinition : Type 0 where
  pub key : Text
  pub label : Text
  pub type : DeviceActionType
  pub on_value : Option Text
  pub off_value : Option Text

pub record DeviceTemplate : Type 0 where
  pub id : Text
  pub name : Text
  pub type : DeviceTemplateType
  pub telemetry_schema : Option (List TelemetryFieldDefinition)
  pub action_schema : Option (List ActionFieldDefinition)
  pub is_active : Bool

pub record DeviceMqttChannelTopic : Type 0 where
  pub index : ℕ
  pub key : Text
  pub label : Text
  pub topic : Text

pub record DeviceMqttTopics : Type 0 where
  pub telemetry : Text
  pub command : Option Text
  pub status : Option Text
  pub event : Option Text
  pub ota : Option Text
  pub channels : Option (List DeviceMqttChannelTopic)

pub record DeviceMqttConfig : Type 0 where
  pub broker : Text
  pub port : ℕ
  pub username : Option Text
  pub password : Option Text
  pub topics : DeviceMqttTopics

pub record DeviceHttpPushConfig : Type 0 where
  pub url : Text
  pub headers : Option (Dict Text)

pub record DeviceKafkaConfig : Type 0 where
  pub brokers : Text
  pub topics : List Text
  pub command_topic : Option Text
  pub client_id : Option Text
  pub username : Option Text
  pub password : Option Text

pub record DeviceNetworkConfig : Type 0 where
  pub api_endpoint : Option Text
  pub mqtt : Option DeviceMqttConfig
  pub http : Option DeviceHttpPushConfig
  pub kafka : Option DeviceKafkaConfig

pub record DeviceWarningThreshold : Type 0 where
  pub min : Option Number
  pub max : Option Number
  pub enabled : Option Bool
  pub channels : Option (List NotificationChannelType)

pub record DeviceOfflineAlertConfig : Type 0 where
  pub enabled : Bool
  pub channels : Option (List NotificationChannelType)

pub record DeviceFailsafeConfig : Type 0 where
  pub enabled : Bool
  pub rules : Option (List Text)

pub record Device : Type 0 where
  pub id : Text
  pub created_at : ℕ
  pub device_id : Text
  pub name : Text
  pub template_id : Text
  pub user_id : Text
  pub factory_id : Option Text
  pub asset_id : Option Text
  pub health_weight : ℕ
  pub last_seen_at : Option ℕ
  pub status : DeviceStatus
  pub push_channel : DevicePushChannel
  pub config : Option DeviceNetworkConfig
  pub config_version : ℕ
  pub is_active : Bool
  pub warning_overrides : Option (Dict DeviceWarningThreshold)
  pub channel_states : Option (Dict Text)
  pub offline_alert : Option DeviceOfflineAlertConfig
  pub alert_rules : Option (List Text)
  pub failsafe : Option DeviceFailsafeConfig
  pub installed_at : Option ℕ
  pub expected_lifespan_months : Option ℕ
  pub lifecycle_stage : DeviceLifecycleStage
  pub lifecycle_score : Option ℕ
  pub lifecycle_assessed_at : Option ℕ
  pub decommissioned_at : Option ℕ
  pub firmware_version : Option Text
  pub ota_status : DeviceOtaStatus
  pub ota_firmware_id : Option Text
  pub ota_target_version : Option Text
  pub ota_progress : Option ℕ
  pub ota_error : Option Text
  pub ota_requested_at : Option ℕ
  pub ota_updated_at : Option ℕ

pub record DeviceTelemetry : Type 0 where
  pub id : Text
  pub device_id : Text
  pub payload : Json
  pub recorded_at : ℕ

pub record UnclaimedDevice : Type 0 where
  pub id : Text
  pub device_id : Text
  pub last_topic : Text
  pub last_payload : Option Text
  pub last_seen_at : ℕ
  pub ignored_at : Option ℕ

pub record Firmware : Type 0 where
  pub id : Text
  pub created_at : ℕ
  pub template_id : Text
  pub version : Text
  pub file_url : Text
  pub checksum : Option Text
  pub size_bytes : Option ℕ
  pub release_notes : Option Text
  pub is_active : Bool
  pub created_by : Text

pub record DeviceOtaUpdate : Type 0 where
  pub id : Text
  pub device_id : Text
  pub firmware_id : Option Text
  pub from_version : Option Text
  pub to_version : Text
  pub status : DeviceOtaStatus
  pub progress : Option ℕ
  pub error : Option Text
  pub requested_at : ℕ
  pub started_at : Option ℕ
  pub completed_at : Option ℕ

pub record Asset : Type 0 where
  pub id : Text
  pub created_at : ℕ
  pub name : Text
  pub user_id : Text
  pub factory_id : Option Text
  pub installed_at : Option ℕ
  pub expected_lifespan_months : Option ℕ
  pub health_index : Option ℕ
  pub health_status : AssetHealthStatus
  pub health_assessed_at : Option ℕ
  pub is_active : Bool
