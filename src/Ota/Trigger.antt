-- ===== src/Ota/Trigger.antt =====
-- The cloud's side: what starts an update, what is read back of it, and what a device polls.
use aio_t_cloud.Base.{
  Text, codes, ◌==◌, ℕ, Bool, true, false, not, Option, none, some, or_default, and_then, ◌&&◌,
  List, if◌then◌else◌,
}
use mathlib.Core.Option
use aio_t_cloud.Constants.{
  DevicePushChannel, mqtt, http, kafka, DeviceOtaStatus, pending, ota_in_progress,
}
use aio_t_cloud.Constants.{bad_request, internal_server_error}
use aio_t_cloud.Constants.KafkaTopics
use aio_t_cloud.Entities.{Device, Firmware, DeviceOtaUpdate}
use aio_t_cloud.Response.{Response, ok, fail, found, fail_if, ◌>>=◌, ◌>>◌}
use aio_t_cloud.Scope.{AccessScope, in_scope}
use aio_t_cloud.Topics.{default_ota_topic}
use aio_t_cloud.Database.{
  Event, Store, World, Brokers, Payload, ota_update, device_ota_status, emit, kafka_send,
  mqtt_publish, find_owned, find_by_device_id,
}

-- `DeviceOtaStatusDto`
pub record OtaStatusDto : Type 0 where
  pub device_id : Text
  pub status : DeviceOtaStatus
  pub current_version : Option Text
  pub target_version : Option Text
  pub firmware_id : Option Text
  pub progress : Option ℕ
  pub error : Option Text
  pub requested_at : Option ℕ
  pub updated_at : Option ℕ

abbrev pub to_status_dto : Device → OtaStatusDto
to_status_dto d = record {
  device_id = d.device_id;
  status = d.ota_status;
  current_version = d.firmware_version;
  target_version = d.ota_target_version;
  firmware_id = d.ota_firmware_id;
  progress = d.ota_progress;
  error = d.ota_error;
  requested_at = d.ota_requested_at;
  updated_at = d.ota_updated_at;
}

-- `OtaManifestDto`
pub record OtaManifest : Type 0 where
  pub device_id : Text
  pub current_version : Option Text
  pub update_available : Bool
  pub latest_version : Option Text
  pub file_url : Option Text
  pub checksum : Option Text
  pub size_bytes : Option ℕ
  pub release_notes : Option Text

-- `push_channel !== MQTT && push_channel !== KAFKA`
abbrev pub has_no_downlink : DevicePushChannel → Bool
has_no_downlink mqtt = false
has_no_downlink kafka = false
has_no_downlink http = true

-- `device.config?.mqtt?.topics?.ota ?? defaultOtaTopic(device.deviceId)`
abbrev pub ota_topic : Device → Text
ota_topic d =
    or_default (and_then (and_then d.config (λ c. c.mqtt)) (λ m. m.topics.ota))
      (default_ota_topic d.device_id)

abbrev pub ota_payload : Device → Firmware → Payload
ota_payload d f = ota_update d.device_id f.version f.file_url f.checksum f.size_bytes

-- The device after a successful dispatch.
abbrev pub start_attempt : ℕ → Firmware → Device → Device
start_attempt now f d = record d {
  ota_status = pending;
  ota_firmware_id = some f.id;
  ota_target_version = some f.version;
  ota_progress = some 0;
  ota_error = none;
  ota_requested_at = some now;
  ota_updated_at = some now;
}

abbrev pub history_entry : Text → ℕ → Firmware → Device → DeviceOtaUpdate
history_entry id now f d = record {
  id = id;
  device_id = d.id;
  firmware_id = some f.id;
  from_version = d.firmware_version;
  to_version = f.version;
  status = pending;
  progress = some 0;
  error = none;
  requested_at = now;
  started_at = none;
  completed_at = none;
}

-- `!!firmware && firmware.version !== device.firmwareVersion`
abbrev pub is_newer : Device → Firmware → Bool
is_newer d f = elim d.firmware_version [ none ↦ true | some v ↦ not (f.version == v) ]

abbrev pub if_available {ℓ} : {A : Type ℓ} → Bool → Option A → Option A
if_available true a = a
if_available false a = none

abbrev pub manifest : Device → Option Firmware → OtaManifest
manifest d f =
    let available : Bool = elim f [ none ↦ false | some g ↦ is_newer d g ] in
    record {
      device_id = d.device_id;
      current_version = d.firmware_version;
      update_available = available;
      latest_version = Option.map (λ g. g.version) f;
      file_url = if_available available (Option.map (λ g. g.file_url) f);
      checksum = if_available available (and_then f (λ g. g.checksum));
      size_bytes = if_available available (and_then f (λ g. g.size_bytes));
      release_notes = if_available available (and_then f (λ g. g.release_notes));
    }

-- The event of a dispatch.
abbrev pub started_event : ℕ → Device → Firmware → Event
started_event now d f = device_ota_status (record {
  device_id = d.device_id;
  status = pending;
  version = some f.version;
  progress = some 0;
  error = none;
  changed_at = now;
})

module _ {S : Store} where
  -- The guards of `triggerUpdate`, down to the publish.
  unfoldable pub trigger_target : Text → Text → Text → World S → Response (Device × Firmware)
  trigger_target user_id id firmware_id w = do
    d ← found (find_owned user_id id w) (codes "error.deviceNotFound")
    f ←
        found (S.firmware_repository.find_one (λ f. f.id == firmware_id) w.firmwares)
          (codes "error.firmwareNotFound")
    fail_if (not (f.template_id == d.template_id)) bad_request
        (codes "error.firmwareTemplateMismatch")
    fail_if (not f.is_active) bad_request (codes "error.firmwareInactive")
    fail_if (has_no_downlink d.push_channel) bad_request
        (codes "error.deviceActionChannelUnsupported")
    fail_if (ota_in_progress d.ota_status) bad_request (codes "error.deviceOtaAlreadyInProgress")
    ok (d, f)

  abbrev or_publish_failed : Bool × World S → Response (Unit {0}) × World S
  or_publish_failed (true, w) = (ok tt, w)
  or_publish_failed (false, w) =
      (fail internal_server_error (codes "error.deviceOtaPublishFailed"), w)

  -- The `try` block: the publish on the device's push channel.
  unfoldable pub dispatch_ota :
      Brokers → Device → Firmware → World S → Response (Unit {0}) × World S
  dispatch_ota b d f w = elim d.push_channel [
    | kafka ↦ or_publish_failed (kafka_send b KafkaTopics.gateway_commands (ota_payload d f) w)
    | _ ↦
        if b.mqtt_enabled
        then or_publish_failed (mqtt_publish b (ota_topic d) (ota_payload d f) w)
        else (fail bad_request (codes "error.mqttDisabled"), w)
  ]

  -- From `device.otaStatus = PENDING` to the event.
  unfoldable pub record_attempt : ℕ → Device → Firmware → World S → World S
  record_attempt now d f w = emit (started_event now d f) (record w {
    devices = S.device_repository.save (start_attempt now f d) w.devices;
    ota_updates =
        S.ota_update_repository.save
          (history_entry (S.ota_update_repository.next_id w.ota_updates) now f d) w.ota_updates;
  })

  -- `triggerUpdate`
  abbrev finish :
      ℕ → Device → Firmware → Response (Unit {0}) × World S → Response OtaStatusDto × World S
  finish now d f (ok _, w) = (ok (to_status_dto (start_attempt now f d)), record_attempt now d f w)
  finish now d f (fail e m, w) = (fail e m, w)

  unfoldable pub trigger_update :
      Brokers → ℕ → Text → Text → Text → World S → Response OtaStatusDto × World S
  trigger_update b now user_id id firmware_id w = elim (trigger_target user_id id firmware_id w) [
    | ok (d, f) ↦ finish now d f (dispatch_ota b d f w)
    | fail e m ↦ (fail e m, w)
  ]

  -- `deviceRepository.findOne({ where: scope ? { id, ...scope } : { id } })`
  abbrev pub find_readable : AccessScope → Text → World S → Option Device
  find_readable scope id w =
      S.device_repository.find_one (λ d. d.id == id && in_scope scope d.user_id d.factory_id)
        w.devices

  -- `getStatus`
  unfoldable pub get_status : AccessScope → Text → World S → Response OtaStatusDto
  get_status scope id w = do
    d ← found (find_readable scope id w) (codes "error.deviceNotFound")
    ok (to_status_dto d)

  -- `getHistory`
  unfoldable pub get_history : AccessScope → Text → World S → Response (List DeviceOtaUpdate)
  get_history scope id w = do
    d ← found (find_readable scope id w) (codes "error.deviceNotFound")
    ok (
        S.ota_update_repository.find_page (λ u. u.device_id == d.id) (λ u. u.requested_at) 50
          w.ota_updates)

  -- `FirmwareService.findLatestActiveForTemplate`
  abbrev pub find_latest_active : Text → World S → Option Firmware
  find_latest_active template_id w =
      S.firmware_repository.find_latest (λ f. f.template_id == template_id && f.is_active)
        (λ f. f.created_at) w.firmwares

  -- `getManifest`
  unfoldable pub get_manifest : Text → World S → Response OtaManifest
  get_manifest device_id w = do
    d ← found (find_by_device_id device_id w) (codes "error.deviceNotFound")
    ok (manifest d (find_latest_active d.template_id w))
