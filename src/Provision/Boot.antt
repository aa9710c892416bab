-- ===== src/Provision/Boot.antt =====
-- The configuration that a device fetches when it starts: `getBootConfig`.
use aio_t_cloud.Base.{
  Text, codes, ◌==◌, ◌++◌, ℕ, suc, Bool, true, false, Option, none, some, or_default, and_then,
  is_truthy, is_empty, List, [], ◌∷◌, if◌then◌else◌,
}
use mathlib.Core.Option
use aio_t_cloud.Constants.{
  DevicePushChannel, mqtt, http, kafka, DeviceTemplateType, sensor_node, relay_node,
  relay_current_node, gateway, other, not_found,
}
use aio_t_cloud.Constants.KafkaTopics
use aio_t_cloud.Entities.{
  Device, DeviceTemplate, ActionFieldDefinition, DeviceMqttChannelTopic, DeviceMqttTopics,
  DeviceMqttConfig, DeviceHttpPushConfig, DeviceKafkaConfig, DeviceNetworkConfig,
  DeviceOfflineAlertConfig, DeviceFailsafeConfig,
}
use aio_t_cloud.Response.{Response, ok, fail}
use aio_t_cloud.Topics.{
  default_telemetry_topic, default_command_topic, default_status_topic, default_event_topic,
  default_ota_topic, default_channel_command_topic,
}
use aio_t_cloud.Database.{Store, World, find_by_device_id, template_of, save_device}

-- What `ApiConfigService` answers, from the environment.
pub record Environment : Type 0 where
  pub mqtt_url : Text
  pub mqtt_username : Option Text
  pub mqtt_password : Option Text
  pub kafka_brokers : Text
  pub kafka_client_id : Text
  -- `sasl`, its user name and password.
  pub kafka_sasl : Option (Text × Text)

-- `DeviceConfigDto`
pub record BootConfig : Type 0 where
  pub device_id : Text
  pub name : Text
  pub type : DeviceTemplateType
  pub api_endpoint : Option Text
  pub push_channel : DevicePushChannel
  pub mqtt : Option DeviceMqttConfig
  pub http : Option DeviceHttpPushConfig
  pub kafka : Option DeviceKafkaConfig
  pub config_version : ℕ
  pub offline_alert : Option DeviceOfflineAlertConfig
  pub alert_rules : Option (List Text)
  pub failsafe : Option DeviceFailsafeConfig

-- `overridesByKey.get(key)`: of several channels with one key the last counts.
unfoldable pub override_topic : Text → List DeviceMqttChannelTopic → Option Text
override_topic key [] = none
override_topic key (c ∷ cs) = elim (override_topic key cs) [
  | some t ↦ some t
  | none ↦ if c.key == key then some c.topic else none
]

-- `overridesByKey.get(action.key) || defaultChannelCommandTopic(device.deviceId, index + 1)`
abbrev pub channel_topic : Text → List DeviceMqttChannelTopic → Text → ℕ → Text
channel_topic device_id overrides key index =
    let derived = default_channel_command_topic device_id index in
    elim (override_topic key overrides) [
      | none ↦ derived
      | some t ↦ if is_truthy t then t else derived
    ]

-- The `map` over the actions; `before` actions stand before these.
unfoldable pub channels_of :
    Text
    → List DeviceMqttChannelTopic
    → ℕ
    → List ActionFieldDefinition
    → List DeviceMqttChannelTopic
channels_of device_id overrides before [] = []
channels_of device_id overrides before (a ∷ rest) =
    record {
      index = suc before;
      key = a.key;
      label = a.label;
      topic = channel_topic device_id overrides a.key (suc before);
    }
    ∷ channels_of device_id overrides (suc before) rest

abbrev pub is_channel_based : DeviceTemplateType → Bool
is_channel_based relay_node = true
is_channel_based relay_current_node = true
is_channel_based sensor_node = false
is_channel_based gateway = false
is_channel_based other = false

-- `buildMqttTopics`
unfoldable pub build_mqtt_topics :
    Device → Option DeviceTemplate → DeviceMqttTopics → DeviceMqttTopics
build_mqtt_topics d none base = base
build_mqtt_topics d (some t) base =
    let actions = or_default t.action_schema [] in
    if is_channel_based t.type
    then if is_empty actions then base else record base {
      channels = some (channels_of d.device_id (or_default base.channels []) 0 actions);
    }
    else base

abbrev pub default_mqtt_config : Environment → Device → DeviceMqttConfig
default_mqtt_config env d = record {
  broker = env.mqtt_url;
  port = 1883;
  username = env.mqtt_username;
  password = env.mqtt_password;
  topics = record {
    telemetry = default_telemetry_topic d.device_id;
    command = some (default_command_topic d.device_id);
    status = some (default_status_topic d.device_id);
    event = some (default_event_topic d.device_id);
    ota = some (default_ota_topic d.device_id);
    channels = none;
  };
}

-- `device.config?.mqtt ? { ...device.config.mqtt } : { ... }`
abbrev pub mqtt_base : Environment → Device → DeviceMqttConfig
mqtt_base env d = or_default (and_then d.config (λ c. c.mqtt)) (default_mqtt_config env d)

-- `event` and `ota` are never missing.
abbrev pub with_defaults : Device → DeviceMqttTopics → DeviceMqttTopics
with_defaults d t = record t {
  event = some (or_default t.event (default_event_topic d.device_id));
  ota = some (or_default t.ota (default_ota_topic d.device_id));
}

unfoldable pub boot_mqtt : Environment → Device → Option DeviceTemplate → DeviceMqttConfig
boot_mqtt env d t =
    let base = mqtt_base env d in
    record base { topics = build_mqtt_topics d t (with_defaults d base.topics) }

abbrev pub is_gateway : Option DeviceTemplate → Bool
is_gateway none = false
is_gateway (some t) = elim t.type [ gateway ↦ true | _ ↦ false ]

-- The configuration that `resolveKafkaConfig` generates.
unfoldable pub new_kafka_config : Environment → Device → Option DeviceTemplate → DeviceKafkaConfig
new_kafka_config env d t = record {
  brokers = env.kafka_brokers;
  topics =
      if is_gateway t
      then KafkaTopics.telemetry ∷ KafkaTopics.status ∷ KafkaTopics.device_events
        ∷ KafkaTopics.command ∷ KafkaTopics.ota_status ∷ []
      else KafkaTopics.telemetry ∷ [];
  command_topic = if is_gateway t then some KafkaTopics.gateway_commands else none;
  client_id = some (
      if is_gateway t
      then env.kafka_client_id ++ (codes "-gw-" ++ d.device_id)
      else env.kafka_client_id);
  username = Option.map (λ s. s.0) env.kafka_sasl;
  password = Option.map (λ s. s.1) env.kafka_sasl;
}

abbrev pub empty_config : DeviceNetworkConfig
empty_config = record { api_endpoint = none; mqtt = none; http = none; kafka = none }

-- `device.config = { ...device.config, kafka }`
abbrev pub with_kafka : DeviceKafkaConfig → Device → Device
with_kafka k d = record d {
  config = some (record (or_default d.config empty_config) { kafka = some k });
}

abbrev pub boot_config :
    Device → Option DeviceTemplate → Option DeviceMqttConfig → Option DeviceKafkaConfig → BootConfig
boot_config d t m k = record {
  device_id = d.device_id;
  name = d.name;
  type = elim t [ none ↦ other | some x ↦ x.type ];
  api_endpoint = and_then d.config (λ c. c.api_endpoint);
  push_channel = d.push_channel;
  mqtt = m;
  http = elim d.push_channel [ http ↦ and_then d.config (λ c. c.http) | _ ↦ none ];
  kafka = k;
  config_version = d.config_version;
  offline_alert = d.offline_alert;
  alert_rules = d.alert_rules;
  failsafe = d.failsafe;
}

module _ {S : Store} where
  -- `resolveKafkaConfig`
  unfoldable pub resolve_kafka_config :
      Environment → Device → Option DeviceTemplate → World S → DeviceKafkaConfig × World S
  resolve_kafka_config env d t w = elim (and_then d.config (λ c. c.kafka)) [
    | some k ↦ (k, w)
    | none ↦ let k = new_kafka_config env d t in (k, save_device (with_kafka k d) w)
  ]

  -- The answer for a known device.
  unfoldable pub boot_device : Environment → Device → World S → BootConfig × World S
  boot_device env d w =
      let t = template_of d w in
      elim d.push_channel [
        | mqtt ↦ (boot_config d t (some (boot_mqtt env d t)) none, w)
        | http ↦ (boot_config d t none none, w)
        | kafka ↦
            let (k, w') = resolve_kafka_config env d t w in (boot_config d t none (some k), w')
      ]

  -- `getBootConfig`
  unfoldable pub get_boot_config : Environment → Text → World S → Response BootConfig × World S
  get_boot_config env device_id w = elim (find_by_device_id device_id w) [
    | none ↦ (fail not_found (codes "error.deviceNotFound"), w)
    | some d ↦ (ok (boot_device env d w).0, (boot_device env d w).1)
  ]
