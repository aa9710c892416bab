-- ===== src/Ota/Laws.antt =====
-- What `triggerUpdate` guarantees: DeviceOtaService in src/modules/device/device-ota.service.ts.
use aio_t_cloud.Base.{
  if◌then◌else◌, Text, ◌==◌, eq_iff, ◌++◌, ℕ, true, false, some, none, ◌&&◌, ◌≢◌, ◌⊎◌, ap, ◌∙◌, [],
  ◌∷◌, ◌≡◌, inl, inr, arith,
}
use aio_t_cloud.Constants.{http, kafka, pending, downloading, installing, ErrorCode}
use aio_t_cloud.Constants.KafkaTopics
use aio_t_cloud.Entities.{Device, Firmware}
use aio_t_cloud.Response.{ok, fail, is_ok, Response-cases}
use aio_t_cloud.Database.{Store, World, Brokers, Publish, device_row, ota_update, device_ota_status}
use aio_t_cloud.Ota.{
  OtaStatusDto, start_attempt, history_entry, ota_topic, trigger_target, dispatch_ota,
  record_attempt, trigger_update,
}

-- The message that an update travels in.
abbrev pub ota_message : Device → Firmware → Publish
ota_message d f =
    let payload = ota_update d.device_id f.version f.file_url f.checksum f.size_bytes in
    elim d.push_channel [
      | kafka ↦ Publish.kafka KafkaTopics.gateway_commands payload
      | _ ↦ Publish.mqtt (ota_topic d) payload
    ]

-- The device of an update that has been sent out.
abbrev pub with_update : ℕ → Firmware → Device → Device
with_update now f d = record d {
  ota_status = pending;
  ota_firmware_id = some f.id;
  ota_target_version = some f.version;
  ota_progress = some 0;
  ota_error = none;
  ota_requested_at = some now;
  ota_updated_at = some now;
}

module _ {S : Store} where
  -- What the guards of a trigger establish.
  pub record IsTarget (user_id id firmware_id : Text) (w : World S) (d : Device) (f : Firmware)
      : Type 0 where
    pub stored : device_row d.id w ≡ some d
    pub named : d.id ≡ id
    pub owned : d.user_id ≡ user_id
    pub firmware : S.firmware_repository.row w.firmwares f.id ≡ some f
    pub firmware_named : f.id ≡ firmware_id
    pub fits : f.template_id ≡ d.template_id
    pub active : f.is_active ≡ true
    pub downlink : d.push_channel ≢ http
    pub idle : (d.ota_status ≢ pending) × (d.ota_status ≢ downloading) × (d.ota_status ≢ installing)

  pub trigger_target-IsTarget :
      (user_id id firmware_id : Text) (w : World S) (d : Device) (f : Firmware)
      → trigger_target user_id id firmware_id w ≡ ok (d, f)
      → IsTarget user_id id firmware_id w d f
  unfolding trigger_target
  trigger_target-IsTarget user_id id firmware_id w d f h = ground (
    arith,
    S.device_repository.find_one-some (λ x. x.id == id && x.user_id == user_id) w.devices d,
    S.firmware_repository.find_one-some (λ g. g.id == firmware_id) w.firmwares f,
    eq_iff d.id id,
    eq_iff d.user_id user_id,
    eq_iff f.id firmware_id,
    eq_iff f.template_id d.template_id,
  )

  -- What an update that was started has changed.
  pub record IsStarted (now : ℕ) (d : Device) (f : Firmware) (w w' : World S) : Type 0 where
    pub device :
        (i : Text)
        → device_row i w' ≡ (if d.id == i then some (with_update now f d) else device_row i w)
    pub history :
        (i : Text)
        → S.ota_update_repository.row w'.ota_updates i ≡ (
            if S.ota_update_repository.next_id w.ota_updates == i
            then some (record {
              id = S.ota_update_repository.next_id w.ota_updates;
              device_id = d.id;
              firmware_id = some f.id;
              from_version = d.firmware_version;
              to_version = f.version;
              status = pending;
              progress = some 0;
              error = none;
              requested_at = now;
              started_at = none;
              completed_at = none;
            })
            else S.ota_update_repository.row w.ota_updates i)
    pub sent : w'.published ≡ w.published ++ ota_message d f ∷ []
    pub announced :
        w'.emitted
        ≡ w.emitted
          ++ device_ota_status (record {
            device_id = d.device_id;
            status = pending;
            version = some f.version;
            progress = some 0;
            error = none;
            changed_at = now;
          })
            ∷ []

  -- What a call that was refused has changed: at most the count of attempts to send.
  pub record IsUntouched (w w' : World S) : Type 0 where
    pub devices : w'.devices ≡ w.devices
    pub ota_updates : w'.ota_updates ≡ w.ota_updates
    pub published : w'.published ≡ w.published
    pub emitted : w'.emitted ≡ w.emitted

  dispatch_ota-ok :
      (b : Brokers) (d : Device) (f : Firmware) (w w' : World S)
      → d.push_channel ≢ http
      → dispatch_ota b d f w ≡ (ok tt, w')
      → (w'.published ≡ w.published ++ ota_message d f ∷ [])
        × (w'.devices ≡ w.devices)
        × (w'.ota_updates ≡ w.ota_updates)
        × (w'.emitted ≡ w.emitted)
  unfolding dispatch_ota
  dispatch_ota-ok b d f w w' h e = ground arith

  dispatch_ota-fail :
      (b : Brokers) (d : Device) (f : Firmware) (w w' : World S) (c : ErrorCode) (m : Text)
      → dispatch_ota b d f w ≡ (fail c m, w')
      → IsUntouched w w'
  unfolding dispatch_ota
  dispatch_ota-fail b d f w w' c m e = ground arith

  record_attempt-IsStarted :
      (now : ℕ) (d : Device) (f : Firmware) (w v : World S)
      → v.published ≡ w.published ++ ota_message d f ∷ []
      → v.devices ≡ w.devices
      → v.ota_updates ≡ w.ota_updates
      → v.emitted ≡ w.emitted
      → IsStarted now d f w (record_attempt now d f v)
  unfolding record_attempt
  record_attempt-IsStarted now d f w v published devices updates emitted = record {
    device = λ i. ground (arith, S.device_repository.row-save (start_attempt now f d) v.devices i);
    history = λ i. ground (
      arith,
      S.ota_update_repository.row-save
          (history_entry (S.ota_update_repository.next_id v.ota_updates) now f d) v.ota_updates i,
    );
    sent = published;
    announced = ground arith;
  }

  -- A trigger that is answered with a status had a device of the caller and an active firmware of the
  -- same template, with no update in progress; it set that device to PENDING at 0 % and no other
  -- device, added one open history entry, published the instruction once and announced it once.
  pub trigger_update-ok :
      (b : Brokers) (now : ℕ) (user_id id firmware_id : Text) (w : World S) (dto : OtaStatusDto)
      → (trigger_update b now user_id id firmware_id w).0 ≡ ok dto
      → (d : Device) × (f : Firmware) × IsTarget user_id id firmware_id w d f
        × IsStarted now d f w (trigger_update b now user_id id firmware_id w).1
        × (dto ≡ record {
          device_id = d.device_id;
          status = pending;
          current_version = d.firmware_version;
          target_version = some f.version;
          firmware_id = some f.id;
          progress = some 0;
          error = none;
          requested_at = some now;
          updated_at = some now;
        })
  unfolding trigger_update
  trigger_update-ok b now user_id id firmware_id w dto h =
      elim (Response-cases (trigger_target user_id id firmware_id w)) [
        | inl ((d, f), e) ↦
            let target = trigger_target-IsTarget user_id id firmware_id w d f e in
            let sent = (dispatch_ota b d f w).1 in
            elim (Response-cases (dispatch_ota b d f w).0) [
              | inl (_, e') ↦
                  let (published, devices, updates, emitted) =
                    dispatch_ota-ok b d f w sent target.downlink (ground arith) in
                  let same : (trigger_update b now user_id id firmware_id w).1
                      ≡ record_attempt now d f sent =
                    ground arith in
                  (
                    d,
                    f,
                    target,
                    rw same
                        (record_attempt-IsStarted now d f w sent published devices updates emitted),
                    ground arith,
                  )
              | inr (c', m', e') ↦ absurd (ground arith)
            ]
        | inr (c', m', e) ↦ absurd (ground arith)
      ]

  -- A trigger that is refused, whatever the reason, changes no device, no history entry and no event,
  -- and publishes nothing.
  pub trigger_update-fail :
      (b : Brokers) (now : ℕ) (user_id id firmware_id : Text) (w : World S) (c : ErrorCode)
      (m : Text)
      → (trigger_update b now user_id id firmware_id w).0 ≡ fail c m
      → IsUntouched w (trigger_update b now user_id id firmware_id w).1
  unfolding trigger_update
  trigger_update-fail b now user_id id firmware_id w c m h =
      elim (Response-cases (trigger_target user_id id firmware_id w)) [
        | inl ((d, f), e) ↦ elim (Response-cases (dispatch_ota b d f w).0) [
          | inl (_, e') ↦ absurd (ground arith)
          | inr (c', m', e') ↦
              ground (arith, dispatch_ota-fail b d f w (dispatch_ota b d f w).1 c m)
        ]
        | inr (c', m', e) ↦ ground arith
      ]

  -- While an update is in progress, be it PENDING, DOWNLOADING or INSTALLING, a trigger for the device is
  -- refused and leaves every device, history entry, message and event as it was, whatever the brokers,
  -- the clock and the firmware.
  pub trigger_update_exclusive :
      (b : Brokers) (now : ℕ) (user_id firmware_id : Text) (w : World S) (d : Device)
      → device_row d.id w ≡ some d
      → (d.ota_status ≡ pending) ⊎ ((d.ota_status ≡ downloading) ⊎ (d.ota_status ≡ installing))
      → (is_ok (trigger_update b now user_id d.id firmware_id w).0 ≡ false)
        × IsUntouched w (trigger_update b now user_id d.id firmware_id w).1
  trigger_update_exclusive b now user_id firmware_id w d stored busy =
      elim (Response-cases (trigger_update b now user_id d.id firmware_id w).0) [
        | inr (c, m, e) ↦ (rw e, trigger_update-fail b now user_id d.id firmware_id w c m e)
        | inl (dto, e) ↦
            let (t, f, target, _, _) = trigger_update-ok b now user_id d.id firmware_id w dto e in
            let same : t ≡ d = ground (arith, target.stored, target.named) in
            let (a, p, q) = target.idle in
            let status : t.ota_status ≡ d.ota_status = ap (λ (x : Device). x.ota_status) same in
            absurd (elim busy [
              | inl x ↦ a (status ∙ x)
              | inr (inl x) ↦ p (status ∙ x)
              | inr (inr x) ↦ q (status ∙ x)
            ])
      ]
