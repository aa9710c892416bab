-- ===== src/Ota/Report.antt =====
-- The device's side: a progress or result report, `handleOtaStatusReport`.
use aio_t_cloud.Base.{
  Text, codes, ◌==◌, ℕ, Bool, true, false, not, Option, none, some, or_default, and_then, ◌&&◌,
  ◌||◌, is_some, List, [], ◌∷◌, find?, min, trim, to_upper, if◌then◌else◌,
}
use aio_t_cloud.Constants.{DeviceOtaStatus, idle, pending, downloading, installing, success, failed}
use aio_t_cloud.Entities.{Device, DeviceOtaUpdate}
use aio_t_cloud.Number.{Number, round_nonneg}
use aio_t_cloud.Database.{
  Store, World, DeviceOtaStatusEvent, device_ota_status, emit, find_by_device_id, save_device,
}

-- `OtaStatusReportPayload`
pub record OtaStatusReport : Type 0 where
  pub status : Option Text
  pub version : Option Text
  pub progress : Option Number
  pub error : Option Text

-- The string values of the enum.
abbrev pub ota_status_name : DeviceOtaStatus → Text
ota_status_name idle = codes "IDLE"
ota_status_name pending = codes "PENDING"
ota_status_name downloading = codes "DOWNLOADING"
ota_status_name installing = codes "INSTALLING"
ota_status_name success = codes "SUCCESS"
ota_status_name failed = codes "FAILED"

-- `Object.values(DeviceOtaStatus)`
abbrev pub ota_statuses : List DeviceOtaStatus
ota_statuses = idle ∷ pending ∷ downloading ∷ installing ∷ success ∷ failed ∷ []

-- The member of the enum with this value.
unfoldable pub ota_status_of : Text → Option DeviceOtaStatus
ota_status_of name = find? (λ s. ota_status_name s == name) ota_statuses

unfoldable pub parse_ota_status : Option Text → Option DeviceOtaStatus
unfolding ota_status_of
parse_ota_status raw = and_then raw (λ s. ota_status_of (to_upper (trim s)))

unfoldable pub clamp_progress : Number → ℕ
clamp_progress value = min 100 (round_nonneg value)

abbrev pub is_success : DeviceOtaStatus → Bool
is_success success = true
is_success _ = false

abbrev pub is_failed : DeviceOtaStatus → Bool
is_failed failed = true
is_failed _ = false

-- `status === DOWNLOADING || status === INSTALLING`
abbrev pub is_running : DeviceOtaStatus → Bool
is_running downloading = true
is_running installing = true
is_running _ = false

-- The new `otaProgress`.
abbrev pub reported_progress : DeviceOtaStatus → OtaStatusReport → Device → Option ℕ
reported_progress status r d =
    if is_success status
    then some 100
    else elim r.progress [ none ↦ d.ota_progress | some p ↦ some (clamp_progress p) ]

abbrev or_else {ℓ} : {A : Type ℓ} → Option A → Option A → Option A
or_else none b = b
or_else (some a) b = some a

-- `payload.version ?? device.firmwareVersion`, kept only on SUCCESS.
abbrev pub reported_version : DeviceOtaStatus → OtaStatusReport → Device → Option Text
reported_version status r d =
    if is_success status then or_else r.version d.firmware_version else d.firmware_version

abbrev pub reported_error : DeviceOtaStatus → OtaStatusReport → Device → Option Text
reported_error status r d =
    if is_success status
    then none
    else if is_failed status
    then some (or_default r.error (codes "Unknown error"))
    else d.ota_error

-- The device after a report with a known status.
abbrev pub apply_report : ℕ → DeviceOtaStatus → OtaStatusReport → Device → Device
apply_report now status r d = record d {
  firmware_version = reported_version status r d;
  ota_status = status;
  ota_progress = reported_progress status r d;
  ota_error = reported_error status r d;
  ota_updated_at = some now;
}

abbrev pub has_ended : DeviceOtaStatus → Bool
has_ended status = is_success status || is_failed status

-- The open attempt of the history after the report; `d` is the device after it.
abbrev pub advance_attempt : ℕ → DeviceOtaStatus → Device → DeviceOtaUpdate → DeviceOtaUpdate
advance_attempt now status d u = record u {
  status = status;
  progress = d.ota_progress;
  error = if has_ended status then (if is_failed status then d.ota_error else none) else u.error;
  started_at = if not (is_some u.started_at) && is_running status then some now else u.started_at;
  completed_at = if has_ended status then some now else u.completed_at;
}

-- The event of a report; `d` is the device after it.
abbrev pub report_event :
    ℕ → Text → DeviceOtaStatus → OtaStatusReport → Device → DeviceOtaStatusEvent
report_event now device_id status r d = record {
  device_id = device_id;
  status = status;
  version = or_else r.version d.firmware_version;
  progress = d.ota_progress;
  error = d.ota_error;
  changed_at = now;
}

module _ {S : Store} where
  -- `findOne({ where: { deviceId: device.id }, order: { requestedAt: 'DESC' } })`
  abbrev pub latest_attempt : Text → World S → Option DeviceOtaUpdate
  latest_attempt id w =
      S.ota_update_repository.find_latest (λ u. u.device_id == id) (λ u. u.requested_at)
        w.ota_updates

  -- `if (latest && !latest.completedAt) { ... }`
  unfoldable pub advance_history : ℕ → DeviceOtaStatus → Device → World S → World S
  advance_history now status d w = elim (latest_attempt d.id w) [
    | none ↦ w
    | some u ↦ if is_some u.completed_at then w else record w {
      ota_updates = S.ota_update_repository.save (advance_attempt now status d u) w.ota_updates;
    }
  ]

  -- From `device.otaStatus = status` to the event.
  unfoldable pub record_report :
      ℕ → Text → DeviceOtaStatus → OtaStatusReport → Device → World S → World S
  record_report now device_id status r d w =
      let d' = apply_report now status r d in
      emit (device_ota_status (report_event now device_id status r d'))
        (advance_history now status d' (save_device d' w))

  -- `handleOtaStatusReport`
  unfoldable pub handle_ota_status_report : ℕ → Text → OtaStatusReport → World S → World S
  handle_ota_status_report now device_id r w = elim (find_by_device_id device_id w) [
    | none ↦ w
    | some d ↦ elim (parse_ota_status r.status) [
      | none ↦ w
      | some status ↦ record_report now device_id status r d w
    ]
  ]
