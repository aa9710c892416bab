-- ===== src/Provision/Configure.antt =====
-- Changes to a device's configuration: `updateDeviceConfig`.
use aio_t_cloud.Base.{
  Text, codes, suc, Bool, Option, none, some, or_default, is_some, List, if◌then◌else◌,
}
use aio_t_cloud.Constants.{DevicePushChannel, not_found}
use aio_t_cloud.Dict.{Dict}
use aio_t_cloud.Entities.{
  Device, DeviceMqttConfig, DeviceHttpPushConfig, DeviceKafkaConfig, DeviceNetworkConfig,
  DeviceWarningThreshold, DeviceOfflineAlertConfig, DeviceFailsafeConfig,
}
use aio_t_cloud.Response.{Response, ok, fail}
use aio_t_cloud.Database.{Store, World, find_owned, save_device}
use aio_t_cloud.Mqtt.{Registry, clear}
use aio_t_cloud.Provision.Boot.{empty_config}

-- `UpdateDeviceConfigDto`: a property that is `undefined` is `none`, one that is `null` `some none`.
pub record ConfigUpdate : Type 0 where
  pub api_endpoint : Option (Option Text)
  pub push_channel : Option DevicePushChannel
  pub mqtt : Option (Option DeviceMqttConfig)
  pub http : Option (Option DeviceHttpPushConfig)
  pub kafka : Option (Option DeviceKafkaConfig)
  pub is_active : Option Bool
  pub warning_overrides : Option (Option (Dict DeviceWarningThreshold))
  pub offline_alert : Option (Option DeviceOfflineAlertConfig)
  pub alert_rules : Option (Option (List Text))
  pub failsafe : Option (Option DeviceFailsafeConfig)

-- `{ ...device.config, ... }`
abbrev pub updated_network : ConfigUpdate → DeviceNetworkConfig → DeviceNetworkConfig
updated_network u c = record {
  api_endpoint = or_default u.api_endpoint c.api_endpoint;
  mqtt = or_default u.mqtt c.mqtt;
  http = or_default u.http c.http;
  kafka = or_default u.kafka c.kafka;
}

unfoldable pub with_config : ConfigUpdate → Device → Device
with_config u d = record d {
  config = some (updated_network u (or_default d.config empty_config));
  push_channel = or_default u.push_channel d.push_channel;
  is_active = or_default u.is_active d.is_active;
  warning_overrides = or_default u.warning_overrides d.warning_overrides;
  offline_alert = or_default u.offline_alert d.offline_alert;
  alert_rules = or_default u.alert_rules d.alert_rules;
  failsafe = or_default u.failsafe d.failsafe;
  config_version = suc d.config_version;
}

module _ {S : Store} where
  -- `updateDeviceConfig`
  unfoldable pub update_device_config :
      Text → Text → ConfigUpdate → Registry × World S → Response Device × (Registry × World S)
  update_device_config user_id id u (r, w) = elim (find_owned user_id id w) [
    | none ↦ (fail not_found (codes "error.deviceNotFound"), (r, w))
    | some d ↦ (
      ok (with_config u d),
      (if is_some u.mqtt then clear r else r, save_device (with_config u d) w),
    )
  ]
