-- ===== src/Database/Messages.antt =====
-- What is sent to the brokers, and whether they take it. Kafka and MQTT are outside the program:
-- `kafka_accepts n` says whether the n-th attempt to send is taken, for any pattern of failures.
use aio_t_cloud.Base.{Text, ℕ, Bool, Option}

-- The bodies that the services publish, and the properties that they put in them.
pub data Payload : Type 0 where
  command : (device_id key value : Text) (topic : Option Text) → Payload
  direct_command : (device_id key value : Text) → Payload
  command_notice : (device_id key value : Text) (topic : Option Text) (requested_at : ℕ) → Payload
  applied : (device_id key value : Text) → Payload
  config_sync : (device_id : Text) (config_version : ℕ) → Payload
  ota_update : (device_id version url : Text) (checksum : Option Text) (size : Option ℕ) → Payload

pub data Publish : Type 0 where
  kafka : (topic : Text) → Payload → Publish
  mqtt : (topic : Text) → Payload → Publish

pub record Brokers : Type 0 where
  pub kafka_accepts : ℕ → Bool
  pub mqtt_accepts : ℕ → Bool
  -- `apiConfigService.mqttEnabled`
  pub mqtt_enabled : Bool
