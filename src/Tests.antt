-- ===== src/Tests.antt =====
-- Concrete data and runs: two devices of one owner, their template and firmware, a database of rows.
pub mod Updates
pub mod Signals
pub mod Alarms
pub mod Inbound
pub mod Notices
pub mod Dashboards
pub mod Logins
pub mod Stock
pub mod Pages
pub mod Assessments
pub mod Routes
pub mod Assets
use aio_t_cloud.Base.{
  Text, codes, ℕ, Bool, true, false, not, Option, none, some, List, [], ◌∷◌, nat_eq,
}
use aio_t_cloud.Constants.{online, offline, mqtt, kafka, relay_node, toggle, active, idle, unknown}
use aio_t_cloud.Number.{Number, natural}
use aio_t_cloud.Json.{Json, Printer}
use aio_t_cloud.Entities.{
  Device, DeviceTemplate, DeviceTelemetry, UnclaimedDevice, Firmware, DeviceOtaUpdate, Asset,
  TelemetryFieldDefinition, ActionFieldDefinition,
}
use aio_t_cloud.Repository.Rows.{rows_repository}
use aio_t_cloud.Database.{Store, World, Brokers}

abbrev pub rows : Store
rows = record {
  device_repository = rows_repository (λ d. d.id);
  template_repository = rows_repository (λ t. t.id);
  telemetry_repository = rows_repository (λ t. t.id);
  unclaimed_repository = rows_repository (λ u. u.id);
  firmware_repository = rows_repository (λ f. f.id);
  ota_update_repository = rows_repository (λ u. u.id);
  asset_repository = rows_repository (λ a. a.id);
}

-- A printer that prints every number as `0`.
abbrev pub printer : Printer
printer = record {
  number = λ _. codes "0";
  compound = λ _. codes "[object Object]";
  stringify = λ _. codes "{}";
  to_fixed = λ _ _. codes "0.00";
}

-- Brokers that refuse the attempt number 3.
abbrev pub brokers : Brokers
brokers = record {
  kafka_accepts = λ n. not (nat_eq n 3);
  mqtt_accepts = λ n. not (nat_eq n 3);
  mqtt_enabled = true;
}

abbrev pub owner : Text
owner = codes "user-1"

abbrev pub temperature : TelemetryFieldDefinition
temperature = record {
  key = codes "temperature";
  label = codes "Temperature";
  unit = some (codes "C");
  warning_min = some (natural 5);
  warning_max = some (natural 40);
}

abbrev pub relay_action : ActionFieldDefinition
relay_action = record {
  key = codes "relay1";
  label = codes "Pump";
  type = toggle;
  on_value = some (codes "ON");
  off_value = some (codes "OFF");
}

abbrev pub relay_template : DeviceTemplate
relay_template = record {
  id = codes "template-1";
  name = codes "Relay";
  type = relay_node;
  telemetry_schema = some (temperature ∷ []);
  action_schema = some (relay_action ∷ []);
  is_active = true;
}

abbrev pub pump : Device
pump = record {
  id = codes "d1";
  created_at = 1000;
  device_id = codes "esp-1";
  name = codes "Pump";
  template_id = codes "template-1";
  user_id = owner;
  factory_id = none;
  asset_id = some (codes "asset-1");
  health_weight = 1;
  last_seen_at = some 5000;
  status = online;
  push_channel = mqtt;
  config = none;
  config_version = 1;
  is_active = true;
  warning_overrides = none;
  channel_states = none;
  offline_alert = none;
  alert_rules = none;
  failsafe = none;
  installed_at = none;
  expected_lifespan_months = none;
  lifecycle_stage = active;
  lifecycle_score = none;
  lifecycle_assessed_at = none;
  decommissioned_at = none;
  firmware_version = some (codes "1.0.0");
  ota_status = idle;
  ota_firmware_id = none;
  ota_target_version = none;
  ota_progress = none;
  ota_error = none;
  ota_requested_at = none;
  ota_updated_at = none;
}

abbrev pub fan : Device
fan = record pump {
  id = codes "d2";
  device_id = codes "esp-2";
  name = codes "Fan";
  push_channel = kafka;
  last_seen_at = none;
  status = offline;
}

abbrev pub update : Firmware
update = record {
  id = codes "f1";
  created_at = 2000;
  template_id = codes "template-1";
  version = codes "1.1.0";
  file_url = codes "https://files/f1";
  checksum = none;
  size_bytes = some 4096;
  release_notes = none;
  is_active = true;
  created_by = owner;
}

abbrev pub line : Asset
line = record {
  id = codes "asset-1";
  created_at = 1000;
  name = codes "Line";
  user_id = owner;
  factory_id = none;
  installed_at = none;
  expected_lifespan_months = none;
  health_index = none;
  health_status = unknown;
  health_assessed_at = none;
  is_active = true;
}

abbrev pub world : World rows
world = record {
  devices = pump ∷ fan ∷ [];
  templates = relay_template ∷ [];
  telemetry = [];
  unclaimed = [];
  firmwares = update ∷ [];
  ota_updates = [];
  assets = line ∷ [];
  emitted = [];
  published = [];
  attempts = 0;
}
