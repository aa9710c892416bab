-- ===== src/Constants.antt =====
-- The enumerations of constants/: src/constants/*.ts.
pub mod KafkaTopics
use aio_t_cloud.Base.{Bool, true, false}

pub data DeviceStatus : Type 0 where
  online offline : DeviceStatus

pub data DevicePushChannel : Type 0 where
  mqtt http kafka : DevicePushChannel

pub data DeviceTemplateType : Type 0 where
  sensor_node relay_node relay_current_node gateway other : DeviceTemplateType

pub data DeviceActionType : Type 0 where
  toggle button : DeviceActionType

pub data DeviceLifecycleStage : Type 0 where
  new active aging maintenance_due end_of_life decommissioned : DeviceLifecycleStage

pub data DeviceOtaStatus : Type 0 where
  idle pending downloading installing success failed : DeviceOtaStatus

pub data AssetHealthStatus : Type 0 where
  healthy warning critical unknown : AssetHealthStatus

pub data NotificationChannelType : Type 0 where
  zalo web_push : NotificationChannelType

pub data NotificationMessageStatus : Type 0 where
  sent undelivered : NotificationMessageStatus

-- `a === b` on two channels.
abbrev pub same_channel : NotificationChannelType → NotificationChannelType → Bool
same_channel NotificationChannelType.zalo NotificationChannelType.zalo = true
same_channel NotificationChannelType.web_push NotificationChannelType.web_push = true
same_channel NotificationChannelType.zalo NotificationChannelType.web_push = false
same_channel NotificationChannelType.web_push NotificationChannelType.zalo = false

pub data TokenType : Type 0 where
  access_token refresh_token : TokenType

pub data RoleType : Type 0 where
  root user admin guest : RoleType

pub data ErrorCode : Type 0 where
  bad_request unauthorized forbidden not_found internal_server_error : ErrorCode
  channel_not_supported : ErrorCode

-- `a === b` on two statuses.
abbrev pub same_status : DeviceStatus → DeviceStatus → Bool
same_status DeviceStatus.online DeviceStatus.online = true
same_status DeviceStatus.offline DeviceStatus.offline = true
same_status DeviceStatus.online DeviceStatus.offline = false
same_status DeviceStatus.offline DeviceStatus.online = false

abbrev pub is_online : DeviceStatus → Bool
is_online DeviceStatus.online = true
is_online DeviceStatus.offline = false

-- `OTA_IN_PROGRESS_STATUSES.includes(status)`
abbrev pub ota_in_progress : DeviceOtaStatus → Bool
ota_in_progress DeviceOtaStatus.pending = true
ota_in_progress DeviceOtaStatus.downloading = true
ota_in_progress DeviceOtaStatus.installing = true
ota_in_progress DeviceOtaStatus.idle = false
ota_in_progress DeviceOtaStatus.success = false
ota_in_progress DeviceOtaStatus.failed = false

abbrev pub is_decommissioned : DeviceLifecycleStage → Bool
is_decommissioned DeviceLifecycleStage.decommissioned = true
is_decommissioned DeviceLifecycleStage.new = false
is_decommissioned DeviceLifecycleStage.active = false
is_decommissioned DeviceLifecycleStage.aging = false
is_decommissioned DeviceLifecycleStage.maintenance_due = false
is_decommissioned DeviceLifecycleStage.end_of_life = false
