-- ===== src/Ota/Runs.antt =====
-- Triggers and reports in any order: DeviceOtaService as a transition system.
use aio_t_cloud.Base.{
  Text, eq_iff, ◌==◌, ℕ, true, some, is_some, ◌≡◌, inl, inr, sym, ap, ◌∙◌, arith, Bool-cases,
}
use aio_t_cloud.Entities.{Device, DeviceOtaUpdate}
use aio_t_cloud.Response.{Response-cases}
use aio_t_cloud.Database.{Store, World, Brokers, device_row}
use aio_t_cloud.Ota.{
  OtaStatusReport, trigger_update, handle_ota_status_report, start_attempt, apply_report,
}
use aio_t_cloud.Ota.Laws.{trigger_update-ok, trigger_update-fail}
use aio_t_cloud.Ota.Reports.{
  IsOtaSound, ota_row, apply_report-IsOtaSound, start_attempt-IsOtaSound,
  handle_ota_status_report_cases,
}

module _ {S : Store} where
  -- One call of the service.
  pub data OtaStep (w : World S) : World S → Type 0 where
    triggered :
        (b : Brokers) (now : ℕ) (user_id id firmware_id : Text)
        → OtaStep w (trigger_update b now user_id id firmware_id w).1
    reported :
        (now : ℕ) (device_id : Text) (r : OtaStatusReport)
        → OtaStep w (handle_ota_status_report now device_id r w)

  pub data OtaRun (w : World S) : World S → Type 0 where
    here : OtaRun w w
    next : {v u : World S} → OtaRun w v → OtaStep v u → OtaRun w u

  abbrev pub AllDevicesSound : World S → Type 0
  AllDevicesSound w = (i : Text) (d : Device) → device_row i w ≡ some d → IsOtaSound d

  trigger_update-AllDevicesSound :
      (b : Brokers) (now : ℕ) (user_id id firmware_id : Text) (w : World S)
      → AllDevicesSound w
      → AllDevicesSound (trigger_update b now user_id id firmware_id w).1
  trigger_update-AllDevicesSound b now user_id id firmware_id w h i d e =
      elim (Response-cases (trigger_update b now user_id id firmware_id w).0) [
        | inl (dto, o) ↦
            let (t, f, target, started, _) =
              trigger_update-ok b now user_id id firmware_id w dto o in
            elim (Bool-cases (t.id == i)) [
              | inl same ↦
                  let is : d ≡ start_attempt now f t = ground (arith, started.device i) in
                  rw is (start_attempt-IsOtaSound now f t)
              | inr other ↦ h i d (ground (arith, started.device i))
            ]
        | inr (c, m, o) ↦ h i d (
            ap (λ t. S.device_repository.row t i)
              (sym (trigger_update-fail b now user_id id firmware_id w c m o).devices)
            ∙ e)
      ]

  handle_ota_status_report-AllDevicesSound :
      (now : ℕ) (device_id : Text) (r : OtaStatusReport) (w : World S)
      → AllDevicesSound w
      → AllDevicesSound (handle_ota_status_report now device_id r w)
  handle_ota_status_report-AllDevicesSound now device_id r w h i d e =
      elim (handle_ota_status_report_cases now device_id r w) [
        | inl (same, _) ↦ h i d (ap (device_row i) (sym same) ∙ e)
        | inr (t, status, stored, _, _, done) ↦ elim (Bool-cases (t.id == i)) [
          | inl same ↦
              let is : d ≡ apply_report now status r t = ground (arith, done.device i) in
              rw is (apply_report-IsOtaSound now status r t (h t.id t stored))
          | inr other ↦ h i d (ground (arith, done.device i))
        ]
      ]

  -- In every run from a sound state every device stays sound: progress is at most 100, SUCCESS means
  -- 100 % and no error, and FAILED means that an error is recorded.
  pub OtaRun-AllDevicesSound : {w v : World S} → AllDevicesSound w → OtaRun w v → AllDevicesSound v
  OtaRun-AllDevicesSound h here = h
  OtaRun-AllDevicesSound h (next {v} r (triggered b now user_id id firmware_id)) =
      trigger_update-AllDevicesSound b now user_id id firmware_id v (OtaRun-AllDevicesSound h r)
  OtaRun-AllDevicesSound h (next {v} r (reported now device_id p)) =
      handle_ota_status_report-AllDevicesSound now device_id p v (OtaRun-AllDevicesSound h r)

  OtaStep-completed :
      {w v : World S} (i : Text) (u : DeviceOtaUpdate)
      → OtaStep w v
      → ota_row i w ≡ some u
      → is_some u.completed_at ≡ true
      → ota_row i v ≡ some u
  OtaStep-completed {w} i u (triggered b now user_id id firmware_id) h closed =
      elim (Response-cases (trigger_update b now user_id id firmware_id w).0) [
        | inl (dto, o) ↦
            let (t, f, target, started, _) =
              trigger_update-ok b now user_id id firmware_id w dto o in
            ground (
              arith,
              started.history i,
              eq_iff (S.ota_update_repository.next_id w.ota_updates) i,
              S.ota_update_repository.next_id_fresh w.ota_updates,
            )
        | inr (c, m, o) ↦
            ap (λ t. S.ota_update_repository.row t i)
              (trigger_update-fail b now user_id id firmware_id w c m o).ota_updates
            ∙ h
      ]
  OtaStep-completed {w} i u (reported now device_id r) h closed =
      elim (handle_ota_status_report_cases now device_id r w) [
        | inl (same, _) ↦ ap (ota_row i) same ∙ h
        | inr (t, status, stored, _, _, done) ↦ ground (arith, done.entries i u h)
      ]

  -- A history entry that has been completed is never changed or removed by later triggers and reports.
  -- The run holds no other call: a deletion of a firmware, a template or a device is not a step of it.
  pub OtaRun-completed :
      {w v : World S} (i : Text) (u : DeviceOtaUpdate)
      → OtaRun w v
      → ota_row i w ≡ some u
      → is_some u.completed_at ≡ true
      → ota_row i v ≡ some u
  OtaRun-completed i u here h closed = h
  OtaRun-completed i u (next r s) h closed =
      OtaStep-completed i u s (OtaRun-completed i u r h closed) closed
