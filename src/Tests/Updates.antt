-- ===== src/Tests/Updates.antt =====
-- Firmware updates run on the concrete data.
use aio_t_cloud.Base.{
  Text, [], ◌∷◌, codes, ◌==◌, false, none, some, ◌≡◌, ◌⊎◌, refl, trim, to_upper, Bool-cases, inl,
  inr, arith,
}
use aio_t_cloud.Constants.{DeviceOtaStatus, pending, installing, success, not_found}
use aio_t_cloud.Entities.{Device, Firmware, DeviceOtaUpdate}
use aio_t_cloud.Number.{natural}
use aio_t_cloud.Response.{ok, fail, is_ok}
use aio_t_cloud.Database.{World, device_row}
use aio_t_cloud.Ota.{
  OtaStatusReport, to_status_dto, start_attempt, trigger_update, trigger_target, dispatch_ota,
  record_attempt, parse_ota_status, ota_status_of, handle_ota_status_report, record_report,
  advance_history, clamp_progress,
}
use aio_t_cloud.Ota.Laws.{
  IsTarget, IsStarted, IsUntouched, trigger_update-ok, trigger_update-fail,
  trigger_update_exclusive,
}
use aio_t_cloud.Ota.Reports.{handle_ota_status_report_cases, IsReported, ota_row}
use aio_t_cloud.Ota.Runs.{
  OtaRun, here, next, triggered, reported, AllDevicesSound, OtaRun-AllDevicesSound,
  OtaRun-completed,
}
use aio_t_cloud.Tests.{rows, brokers, owner, pump, fan, update, world}

abbrev started : World rows
started = (trigger_update brokers 9000 owner (codes "d1") (codes "f1") world).1

accepted :
    (trigger_update brokers 9000 owner (codes "d1") (codes "f1") world).0
    ≡ ok (to_status_dto (start_attempt 9000 update pump))
unfolding trigger_update trigger_target dispatch_ota ◌==◌
accepted = refl

trigger_update-ok_example :
    (d : Device) × (f : Firmware) × IsTarget owner (codes "d1") (codes "f1") world d f
    × IsStarted 9000 d f world started
    × (to_status_dto (start_attempt 9000 update pump) ≡ record {
      device_id = d.device_id;
      status = pending;
      current_version = d.firmware_version;
      target_version = some f.version;
      firmware_id = some f.id;
      progress = some 0;
      error = none;
      requested_at = some 9000;
      updated_at = some 9000;
    })
trigger_update-ok_example =
    trigger_update-ok brokers 9000 owner (codes "d1") (codes "f1") world
      (to_status_dto (start_attempt 9000 update pump)) accepted

refused :
    (trigger_update brokers 9000 (codes "user-2") (codes "d1") (codes "f1") world).0
    ≡ fail not_found (codes "error.deviceNotFound")
unfolding trigger_update trigger_target ◌==◌
refused = refl

trigger_update-fail_example :
    IsUntouched world
      (trigger_update brokers 9000 (codes "user-2") (codes "d1") (codes "f1") world).1
trigger_update-fail_example =
    trigger_update-fail brokers 9000 (codes "user-2") (codes "d1") (codes "f1") world not_found
      (codes "error.deviceNotFound") refused

-- A device that is installing.
abbrev installing_pump : Device
installing_pump = record pump { ota_status = installing }

abbrev installing_world : World rows
installing_world = record world { devices = installing_pump ∷ [] }

installing_there : device_row (codes "d1") installing_world ≡ some installing_pump
unfolding ◌==◌
installing_there = refl

trigger_update_exclusive_example :
    (is_ok (trigger_update brokers 9500 owner (codes "d1") (codes "f1") installing_world).0 ≡ false)
    × IsUntouched installing_world
        (trigger_update brokers 9500 owner (codes "d1") (codes "f1") installing_world).1
trigger_update_exclusive_example =
    trigger_update_exclusive brokers 9500 owner (codes "f1") installing_world installing_pump
      installing_there (inr (inr refl))

abbrev finished_report : OtaStatusReport
finished_report = record {
  status = some (codes " success ");
  version = some (codes "1.1.0");
  progress = some (natural 250);
  error = none;
}

handle_ota_status_report_cases_example :
    ((handle_ota_status_report 9900 (codes "esp-1") finished_report started ≡ started)
      × (((i : Text) (d : Device)
            → device_row i started ≡ some d
            → (d.device_id == codes "esp-1") ≡ false)
          ⊎ (parse_ota_status finished_report.status ≡ none)))
    ⊎ ((d : Device) × (status : DeviceOtaStatus) × (device_row d.id started ≡ some d)
        × (d.device_id ≡ codes "esp-1")
        × (parse_ota_status finished_report.status ≡ some status)
        × IsReported 9900 status finished_report d started
            (handle_ota_status_report 9900 (codes "esp-1") finished_report started))
handle_ota_status_report_cases_example =
    handle_ota_status_report_cases 9900 (codes "esp-1") finished_report started

abbrev finished : World rows
finished = handle_ota_status_report 9900 (codes "esp-1") finished_report started

abbrev to_finished : OtaRun world finished
to_finished =
    next (next here (triggered brokers 9000 owner (codes "d1") (codes "f1")))
      (reported 9900 (codes "esp-1") finished_report)

abbrev beyond : World rows
beyond = handle_ota_status_report 9950 (codes "esp-1") finished_report finished

abbrev to_beyond : OtaRun finished beyond
to_beyond = next here (reported 9950 (codes "esp-1") finished_report)

world_sound : AllDevicesSound world
world_sound i d e = elim (Bool-cases (pump.id == i)) [
  | inl first ↦ let is : d ≡ pump = ground arith in rw is (ground arith)
  | inr other ↦ elim (Bool-cases (fan.id == i)) [
    | inl second ↦ let is : d ≡ fan = ground arith in rw is (ground arith)
    | inr neither ↦ absurd (ground arith)
  ]
]

OtaRun-AllDevicesSound_example : AllDevicesSound finished
OtaRun-AllDevicesSound_example = OtaRun-AllDevicesSound world_sound to_finished

abbrev closed_entry : DeviceOtaUpdate
closed_entry = record {
  id = codes "0";
  device_id = codes "d1";
  firmware_id = some (codes "f1");
  from_version = some (codes "1.0.0");
  to_version = codes "1.1.0";
  status = success;
  progress = some 100;
  error = none;
  requested_at = 9000;
  started_at = none;
  completed_at = some 9900;
}

closed_in_finished : ota_row (codes "0") finished ≡ some closed_entry
unfolding trigger_update trigger_target dispatch_ota record_attempt handle_ota_status_report
    record_report advance_history clamp_progress parse_ota_status ota_status_of trim to_upper ◌==◌
closed_in_finished = refl

OtaRun-completed_example : ota_row (codes "0") beyond ≡ some closed_entry
OtaRun-completed_example =
    OtaRun-completed (codes "0") closed_entry to_beyond closed_in_finished refl
