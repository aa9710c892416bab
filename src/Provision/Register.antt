-- ===== src/Provision/Register.antt =====
-- A new device, and its removal.
use aio_t_cloud.Base.{
  Text, codes, ◌==◌, ℕ, Bool, true, not, ◌&&◌, Option, none, some, or_default, is_some,
}
use aio_t_cloud.Constants.{offline, mqtt, new, idle, bad_request, not_found}
use aio_t_cloud.Entities.{Device}
use aio_t_cloud.Response.{Response, ok, fail, found, fail_if, ◌>>=◌, ◌>>◌}
use aio_t_cloud.Scope.{AccessScope, in_scope}
use aio_t_cloud.Database.{Store, World, find_by_device_id, find_owned}

-- `RegisterDeviceDto`
pub record Registration : Type 0 where
  pub device_id : Text
  pub template_id : Text
  pub name : Text
  pub is_active : Option Bool

-- The default of the column, 1, in millionths.
abbrev pub default_health_weight : ℕ
default_health_weight = 1000000

-- `create({ ... })`, with the defaults of the columns.
abbrev pub new_device : Text → ℕ → Text → Option Text → Registration → Device
new_device id now user_id factory_id dto = record {
  id = id;
  created_at = now;
  device_id = dto.device_id;
  name = dto.name;
  template_id = dto.template_id;
  user_id = user_id;
  factory_id = factory_id;
  asset_id = none;
  health_weight = default_health_weight;
  last_seen_at = none;
  status = offline;
  push_channel = mqtt;
  config = none;
  config_version = 1;
  is_active = or_default dto.is_active true;
  warning_overrides = none;
  channel_states = none;
  offline_alert = none;
  alert_rules = none;
  failsafe = none;
  installed_at = none;
  expected_lifespan_months = none;
  lifecycle_stage = new;
  lifecycle_score = none;
  lifecycle_assessed_at = none;
  decommissioned_at = none;
  firmware_version = none;
  ota_status = idle;
  ota_firmware_id = none;
  ota_target_version = none;
  ota_progress = none;
  ota_error = none;
  ota_requested_at = none;
  ota_updated_at = none;
}

module _ {S : Store} where
  -- The guards of `registerDevice`.
  unfoldable pub can_register : Registration → World S → Response (Unit {0})
  can_register dto w = do
    t ←
        found (S.template_repository.find_one (λ t. t.id == dto.template_id) w.templates)
          (codes "error.deviceTemplateNotFound")
    fail_if (not t.is_active) bad_request (codes "error.deviceTemplateInactive")
    fail_if (is_some (find_by_device_id dto.device_id w)) bad_request
        (codes "error.deviceAlreadyRegistered")

  -- The device as it is saved.
  abbrev pub registered : ℕ → Text → Option Text → Registration → World S → Device
  registered now user_id factory_id dto w =
      new_device (S.device_repository.next_id w.devices) now user_id factory_id dto

  -- The save, and the deletion of the sightings of the device.
  unfoldable pub store_registered : ℕ → Text → Option Text → Registration → World S → World S
  store_registered now user_id factory_id dto w = record w {
    devices = S.device_repository.save (registered now user_id factory_id dto w) w.devices;
    unclaimed = S.unclaimed_repository.remove (λ u. u.device_id == dto.device_id) w.unclaimed;
  }

  -- `registerDevice`
  unfoldable pub register_device :
      ℕ → Text → Option Text → Registration → World S → Response Device × World S
  register_device now user_id factory_id dto w = elim (can_register dto w) [
    | fail e m ↦ (fail e m, w)
    | ok _ ↦ (
      ok (registered now user_id factory_id dto w),
      store_registered now user_id factory_id dto w,
    )
  ]

  -- `getDevice`
  unfoldable pub get_device : AccessScope → Text → World S → Response Device
  get_device scope id w =
      found
        (S.device_repository.find_one (λ d. d.id == id && in_scope scope d.user_id d.factory_id)
          w.devices)
        (codes "error.deviceNotFound")

  -- `remove(entity)`, and what the foreign keys (CASCADE) of telemetry and of attempts do.
  abbrev pub remove_device : Text → World S → World S
  remove_device id w = record w {
    devices = S.device_repository.remove (λ x. x.id == id) w.devices;
    telemetry = S.telemetry_repository.remove (λ t. t.device_id == id) w.telemetry;
    ota_updates = S.ota_update_repository.remove (λ u. u.device_id == id) w.ota_updates;
  }

  -- `deleteDevice`
  unfoldable pub delete_device : Text → Text → World S → Response (Unit {0}) × World S
  delete_device user_id id w = elim (find_owned user_id id w) [
    | none ↦ (fail not_found (codes "error.deviceNotFound"), w)
    | some d ↦ (ok tt, remove_device d.id w)
  ]
