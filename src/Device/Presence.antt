-- ===== src/Device/Presence.antt =====
-- Online and offline: what each message does to the stored status, and which changes are announced.
use aio_t_cloud.Base.{
  Text, ◌==◌, eq_iff, ◌++◌, ℕ, Bool, true, false, not, some, List, [], ◌∷◌, ◌≡◌, refl, sym, ap, ◌∙◌,
  inl, inr, Bool-cases, if◌then◌else◌,
}
use aio_t_cloud.Constants.{DeviceStatus, online, same_status, is_online}
use mathlib.Core.List.{append-nil, append_assoc}
use aio_t_cloud.Entities.{Device, DeviceTelemetry}
use aio_t_cloud.Json.{Json, Printer}
use aio_t_cloud.Repository.Updates.{row-update_one}
use aio_t_cloud.Database.{
  Store, World, Event, device_telemetry, device_status, device_row, find_by_device_id,
}
use aio_t_cloud.Device.{
  announce_if, seen_at, set_status, normalized_payload, store_telemetry, record_telemetry,
}

-- The announcement of a change of status, and of none.
abbrev pub announced : Text → ℕ → DeviceStatus → DeviceStatus → List Event
announced device_id now old current =
    if same_status current old then [] else device_status device_id current now ∷ []

pub announced_negated :
    (device_id : Text) (now : ℕ) (old current : DeviceStatus)
    → (if not (same_status current old) then device_status device_id current now ∷ [] else [])
      ≡ announced device_id now old current
announced_negated device_id now old current = elim (Bool-cases (same_status current old)) [
  | inl same ↦ rw same
  | inr other ↦ rw other
]

module _ {S : Store} where
  -- One device was changed, and no other.
  abbrev pub ChangesOnly : Device → Device → World S → World S → Type 0
  ChangesOnly d d' w w' =
      (i : Text) → device_row i w' ≡ (if d.id == i then some d' else device_row i w)

  pub known_device :
      (device_id : Text) (d : Device) (w : World S)
      → find_by_device_id device_id w ≡ some d
      → (device_row d.id w ≡ some d) × (d.device_id ≡ device_id)
  known_device device_id d w e =
      let (stored, named) =
        S.device_repository.find_one-some (λ x. x.device_id == device_id) w.devices d e in
      (stored, (eq_iff d.device_id device_id).0 named)

  pub announce_if-emitted :
      (changed : Bool) (device_id : Text) (status : DeviceStatus) (now : ℕ) (w : World S)
      → (announce_if changed device_id status now w).emitted
        ≡ w.emitted ++ (if changed then device_status device_id status now ∷ [] else [])
  announce_if-emitted true device_id status now w = refl
  announce_if-emitted false device_id status now w = sym (append-nil w.emitted)

  pub announce_if_keeps :
      (changed : Bool) (device_id : Text) (status : DeviceStatus) (now : ℕ) (w : World S)
      → let w' = announce_if changed device_id status now w in
        (w'.devices ≡ w.devices)
        × (w'.telemetry ≡ w.telemetry)
        × (w'.unclaimed ≡ w.unclaimed)
        × (w'.published ≡ w.published)
  announce_if_keeps true device_id status now w = (refl, refl, refl, refl)
  announce_if_keeps false device_id status now w = (refl, refl, refl, refl)

  -- A reading under the device's key.
  abbrev pub reading : ℕ → Device → Json → World S → DeviceTelemetry
  reading now d payload w = record {
    id = S.telemetry_repository.next_id w.telemetry;
    device_id = d.id;
    payload = normalized_payload payload;
    recorded_at = now;
  }

  -- Telemetry of a known device stores the reading under the device's key, marks the device online and
  -- seen now, changes no other device, and announces the reading and then, exactly if the device was
  -- not online, its new status.
  pub record_telemetry_known :
      (p : Printer) (now : ℕ) (device_id : Text) (payload : Json) (d : Device) (w : World S)
      → find_by_device_id device_id w ≡ some d
      → let w' = record_telemetry p now device_id payload w in
        ChangesOnly d (seen_at now d) w w'
        × (w'.emitted
            ≡ w.emitted
              ++ device_telemetry device_id (normalized_payload payload) now
                ∷ announced device_id now d.status online)
        × ((i : Text)
            → S.telemetry_repository.row w'.telemetry i ≡ (
                if (reading now d payload w).id == i
                then some (reading now d payload w)
                else S.telemetry_repository.row w.telemetry i))
        × (w'.unclaimed ≡ w.unclaimed)
  unfolding record_telemetry store_telemetry
  record_telemetry_known p now device_id payload d w e =
      let (stored, _) = known_device device_id d w e in
      let changed : Bool = not (is_online d.status) in
      let same : record_telemetry p now device_id payload w
          ≡ store_telemetry now device_id payload d w =
        rw (e, record_telemetry) in
      rw same (
        λ i.
            ap (λ t. S.device_repository.row t i)
              (announce_if_keeps changed device_id online now _).0
            ∙ row-update_one S.device_repository d (seen_at now) w.devices i (λ s. refl) stored,
        announce_if-emitted changed device_id online now _
            ∙ append_assoc w.emitted _ _
            ∙ ap (λ l. w.emitted ++ device_telemetry device_id (normalized_payload payload) now ∷ l)
                (announced_negated device_id now d.status online),
        λ i.
            ap (λ t. S.telemetry_repository.row t i)
              (announce_if_keeps changed device_id online now _).1
            ∙ S.telemetry_repository.row-save (reading now d payload w) w.telemetry i,
        (announce_if_keeps changed device_id online now _).2,
      )

  -- What a recognised status message has changed.
  pub record IsStatusStored (now : ℕ) (device_id : Text) (status : DeviceStatus) (d : Device)
      (w w' : World S) : Type 0 where
    pub devices : ChangesOnly d (set_status now status d) w w'
    pub emitted : w'.emitted ≡ w.emitted ++ announced device_id now d.status status
    pub telemetry : w'.telemetry ≡ w.telemetry
    pub unclaimed : w'.unclaimed ≡ w.unclaimed
