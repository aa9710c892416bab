-- ===== src/Ota/Reports.antt =====
-- What a report changes, and what holds of every device and every history entry whatever triggers and
-- reports arrive, in any order.
use aio_t_cloud.Base.{
  Text, ◌==◌, eq_iff, ℕ, ◌≤◌, true, false, Option, none, some, is_some, false, ◌++◌, [], ◌∷◌, ◌≡◌,
  ◌↔◌, ◌⊎◌, refl, inl, inr, sym, ap, ◌∙◌, find?-some, arith, Bool-cases, Option-cases, trim,
  to_upper, if◌then◌else◌,
}
use aio_t_cloud.Constants.{DeviceOtaStatus, idle, pending, downloading, installing, success, failed}
use aio_t_cloud.Entities.{Device, Firmware, DeviceOtaUpdate}
use aio_t_cloud.Database.{
  Store, World, device_row, device_ota_status, find_by_device_id, save_device,
}
use aio_t_cloud.Ota.{
  OtaStatusReport, ota_statuses, ota_status_name, ota_status_of, parse_ota_status, clamp_progress,
  has_ended, apply_report, advance_attempt, advance_history, latest_attempt, record_report,
  handle_ota_status_report, start_attempt, report_event,
}

ota_status_of_name : (s : DeviceOtaStatus) → ota_status_of (ota_status_name s) ≡ some s
unfolding ota_status_of ◌==◌
ota_status_of_name idle = refl
ota_status_of_name pending = refl
ota_status_of_name downloading = refl
ota_status_of_name installing = refl
ota_status_of_name success = refl
ota_status_of_name failed = refl

ota_status_of-some :
    (name : Text) (s : DeviceOtaStatus) → ota_status_of name ≡ some s → name ≡ ota_status_name s
unfolding ota_status_of
ota_status_of-some name s h = sym (
    (eq_iff (ota_status_name s) name).0
      (find?-some (λ t. ota_status_name t == name) ota_statuses s h))

-- A status is recognised exactly if it is a member's value, up to case and surrounding white space.
pub parse_ota_status_iff :
    (raw : Text) (s : DeviceOtaStatus)
    → (parse_ota_status (some raw) ≡ some s) ↔ (to_upper (trim raw) ≡ ota_status_name s)
unfolding parse_ota_status
parse_ota_status_iff raw s =
    (ota_status_of-some (to_upper (trim raw)) s, λ e. ap ota_status_of e ∙ ota_status_of_name s)

-- A percentage, if there is one.
abbrev pub IsPercent : Option ℕ → Type 0
IsPercent none = Unit
IsPercent (some p) = p ≤ 100

-- The cached fields of an attempt agree with its status.
pub record IsOtaSound (d : Device) : Type 0 where
  pub percent : IsPercent d.ota_progress
  pub complete : d.ota_status ≡ success → (d.ota_progress ≡ some 100) × (d.ota_error ≡ none)
  pub explained : d.ota_status ≡ failed → is_some d.ota_error ≡ true

pub apply_report-IsOtaSound :
    (now : ℕ) (status : DeviceOtaStatus) (r : OtaStatusReport) (d : Device)
    → IsOtaSound d
    → IsOtaSound (apply_report now status r d)
unfolding clamp_progress
apply_report-IsOtaSound now status r d h = ground arith

pub start_attempt-IsOtaSound :
    (now : ℕ) (f : Firmware) (d : Device) → IsOtaSound (start_attempt now f d)
start_attempt-IsOtaSound now f d = ground arith

-- An entry of the history is closed exactly if its status is SUCCESS or FAILED.
abbrev pub IsEntrySound : DeviceOtaUpdate → Type 0
IsEntrySound u = is_some u.completed_at ≡ has_ended u.status

module _ {S : Store} where
  abbrev pub ota_row : Text → World S → Option DeviceOtaUpdate
  ota_row i w = S.ota_update_repository.row w.ota_updates i

  -- A report for a known device with a recognised status.
  pub record IsReported (now : ℕ) (status : DeviceOtaStatus) (r : OtaStatusReport) (d : Device)
      (w w' : World S) : Type 0 where
    pub device :
        (i : Text)
        → device_row i w'
          ≡ (if d.id == i then some (apply_report now status r d) else device_row i w)
    pub entries :
        (i : Text) (u : DeviceOtaUpdate)
        → ota_row i w ≡ some u
        → (ota_row i w' ≡ some u)
          ⊎ ((is_some u.completed_at ≡ false)
              × (u.device_id ≡ d.id)
              × (ota_row i w' ≡ some (advance_attempt now status (apply_report now status r d) u)))
    pub published : w'.published ≡ w.published
    pub announced :
        w'.emitted
        ≡ w.emitted
          ++ device_ota_status (report_event now d.device_id status r (apply_report now status r d))
            ∷ []

  advance_history-entries :
      (now : ℕ) (status : DeviceOtaStatus) (d : Device) (w : World S) (i : Text)
      (u : DeviceOtaUpdate)
      → ota_row i w ≡ some u
      → (ota_row i (advance_history now status d w) ≡ some u)
        ⊎ ((is_some u.completed_at ≡ false)
            × (u.device_id ≡ d.id)
            × (ota_row i (advance_history now status d w) ≡ some (advance_attempt now status d u)))
  unfolding advance_history
  advance_history-entries now status d w i u h = elim (Option-cases (latest_attempt d.id w)) [
    | inl e ↦ inl (ground arith)
    | inr (v, e) ↦ elim (Bool-cases (is_some v.completed_at)) [
      | inl closed ↦ inl (ground arith)
      | inr open_entry ↦ elim (Bool-cases (v.id == i)) [
        | inl same ↦ inr (
            ground (
              arith,
              S.ota_update_repository.find_latest-some (λ u. u.device_id == d.id)
                  (λ u. u.requested_at) w.ota_updates v,
              eq_iff v.id i,
              eq_iff v.device_id d.id,
              S.ota_update_repository.row-save (advance_attempt now status d v) w.ota_updates i,
            ))
        | inr other ↦ inl (
            ground (
              arith,
              S.ota_update_repository.row-save (advance_attempt now status d v) w.ota_updates i,
            ))
      ]
    ]
  ]

  advance_history_keeps :
      (now : ℕ) (status : DeviceOtaStatus) (d : Device) (w : World S)
      → ((advance_history now status d w).devices ≡ w.devices)
        × ((advance_history now status d w).published ≡ w.published)
        × ((advance_history now status d w).emitted ≡ w.emitted)
  unfolding advance_history
  advance_history_keeps now status d w = ground arith

  record_report-IsReported :
      (now : ℕ) (status : DeviceOtaStatus) (r : OtaStatusReport) (d : Device) (w : World S)
      → IsReported now status r d w (record_report now d.device_id status r d w)
  unfolding record_report
  record_report-IsReported now status r d w =
      let d' = apply_report now status r d in
      let (devices, published, emitted) = advance_history_keeps now status d' (save_device d' w) in
      record {
        device = λ i.
            ap (λ t. S.device_repository.row t i) devices
            ∙ S.device_repository.row-save d' w.devices i;
        entries = λ i u h. advance_history-entries now status d' (save_device d' w) i u h;
        published = published;
        announced =
            ap (λ l. l ++ device_ota_status (report_event now d.device_id status r d') ∷ [])
              emitted;
      }

  -- What a report does: nothing, and then no stored device has the id or the status is not recognised;
  -- or the device is stored, the status is recognised, and the report changes that device and at most
  -- its open history entries, announces it once and publishes nothing.
  pub handle_ota_status_report_cases :
      (now : ℕ) (device_id : Text) (r : OtaStatusReport) (w : World S)
      → ((handle_ota_status_report now device_id r w ≡ w)
          × (((i : Text) (d : Device)
                → device_row i w ≡ some d
                → (d.device_id == device_id) ≡ false)
              ⊎ (parse_ota_status r.status ≡ none)))
        ⊎ ((d : Device) × (status : DeviceOtaStatus) × (device_row d.id w ≡ some d)
            × (d.device_id ≡ device_id)
            × (parse_ota_status r.status ≡ some status)
            × IsReported now status r d w (handle_ota_status_report now device_id r w))
  unfolding handle_ota_status_report
  handle_ota_status_report_cases now device_id r w =
      elim (Option-cases (find_by_device_id device_id w)) [
        | inl e ↦ inl (
          ground arith,
          inl (λ i d at_i.
              S.device_repository.find_one-none (λ x. x.device_id == device_id) w.devices i d e
                at_i),
        )
        | inr (d, e) ↦ elim (Option-cases (parse_ota_status r.status)) [
          | inl e' ↦ inl (ground arith, inr e')
          | inr (status, e') ↦
              let (stored, named) =
                S.device_repository.find_one-some (λ x. x.device_id == device_id) w.devices d e in
              let named' : d.device_id ≡ device_id = (eq_iff d.device_id device_id).0 named in
              let same : handle_ota_status_report now device_id r w
                  ≡ record_report now d.device_id status r d w =
                rw (e, e', named', handle_ota_status_report) refl in
              inr (
                d,
                status,
                stored,
                (eq_iff d.device_id device_id).0 named,
                e',
                rw same (record_report-IsReported now status r d w),
              )
        ]
      ]
