-- ===== src/Catalogue/Links.antt =====
-- Devices and firmwares refer to templates that exist: src/modules/device-template.
use aio_t_cloud.Base.{
  Text, ◌==◌, ℕ, true, false, Option, some, is_some, is_empty, List, ◌≡◌, ◌∙◌, ap, arith, inl, inr,
  Bool-cases, Option-cases,
}
use aio_t_cloud.Repository.Found.{remove-row, row-remove_other, find-empty}
use aio_t_cloud.Entities.{Device, DeviceTemplate, Firmware}
use aio_t_cloud.Database.{Store, World, device_row}
use aio_t_cloud.Catalogue.{
  NewTemplate, TemplateUpdate, NewFirmware, FirmwareUpdate, Hosting, template_row, firmware_row,
  save_template, save_firmware, remove_template, remove_firmware, create_device_template,
  update_device_template, delete_device_template, create_firmware, upload_firmware, update_firmware,
  delete_firmware,
}

module _ {S : Store} where
  -- A template with this key is stored.
  abbrev pub IsStored : World S → Text → Type 0
  IsStored w i = is_some (template_row i w) ≡ true

  -- The templates that devices and firmwares name are stored.
  abbrev pub HasTemplates : World S → Type 0
  HasTemplates w =
      ((i : Text) (d : Device) → device_row i w ≡ some d → IsStored w d.template_id)
      × ((i : Text) (f : Firmware) → firmware_row i w ≡ some f → IsStored w f.template_id)

  save_template-IsStored :
      (t : DeviceTemplate) (w : World S) (i : Text) → IsStored w i → IsStored (save_template t w) i
  save_template-IsStored t w i h = ground (arith, S.template_repository.row-save t w.templates i)

  save_template-HasTemplates :
      (t : DeviceTemplate) (w : World S) → HasTemplates w → HasTemplates (save_template t w)
  save_template-HasTemplates t w (devices, firmwares) = (
    λ i d at_i. save_template-IsStored t w d.template_id (devices i d at_i),
    λ i f at_i. save_template-IsStored t w f.template_id (firmwares i f at_i),
  )

  save_firmware-HasTemplates :
      (f : Firmware) (w : World S)
      → IsStored w f.template_id
      → HasTemplates w
      → HasTemplates (save_firmware f w)
  save_firmware-HasTemplates f w known (devices, firmwares) = (
    devices,
    λ i g at_i. elim (Bool-cases (f.id == i)) [
      | inl new ↦ ground (arith, S.firmware_repository.row-save f w.firmwares i)
      | inr old ↦ firmwares i g (ground (arith, S.firmware_repository.row-save f w.firmwares i))
    ],
  )

  remove_firmware-HasTemplates :
      (id : Text) (w : World S) → HasTemplates w → HasTemplates (remove_firmware id w)
  remove_firmware-HasTemplates id w (devices, firmwares) = (
    devices,
    λ i g at_i.
        let (old, _) = remove-row S.firmware_repository (λ f. f.id == id) w.firmwares i g at_i in
        firmwares i g old,
  )

  remove_template-IsStored :
      (id : Text) (w : World S) (i : Text)
      → (i == id) ≡ false
      → IsStored w i
      → IsStored (remove_template id w) i
  remove_template-IsStored id w i other h = elim (Option-cases (template_row i w)) [
    | inl lost ↦ absurd (ground arith)
    | inr (t, at_i) ↦
        let key : t.id ≡ i = S.template_repository.row-key w.templates i t at_i in
        ap is_some (
          row-remove_other S.template_repository (λ x. x.id == id) w.templates i t at_i
            (ap (λ x. x == id) key ∙ other))
  ]

  remove_template-HasTemplates :
      (id : Text) (w : World S)
      → ((i : Text) (d : Device) → device_row i w ≡ some d → (d.template_id == id) ≡ false)
      → HasTemplates w
      → HasTemplates (remove_template id w)
  remove_template-HasTemplates id w unused (devices, firmwares) = (
    λ i d at_i. remove_template-IsStored id w d.template_id (unused i d at_i) (devices i d at_i),
    λ i f at_i.
        let (old, other) =
          remove-row S.firmware_repository (λ x. x.template_id == id) w.firmwares i f at_i in
        remove_template-IsStored id w f.template_id other (firmwares i f old),
  )

  create_device_template-HasTemplates :
      (dto : NewTemplate) (w : World S)
      → HasTemplates w
      → HasTemplates (create_device_template dto w).1
  unfolding create_device_template
  create_device_template-HasTemplates dto w h = save_template-HasTemplates _ w h

  update_device_template-HasTemplates :
      (id : Text) (dto : TemplateUpdate) (w : World S)
      → HasTemplates w
      → HasTemplates (update_device_template id dto w).1
  unfolding update_device_template
  update_device_template-HasTemplates id dto w h = elim (Option-cases (template_row id w)) [
    | inl gone ↦ rw (gone, update_device_template) h
    | inr (t, stored) ↦ rw (stored, update_device_template) (save_template-HasTemplates _ w h)
  ]

  delete_device_template-HasTemplates :
      (id : Text) (w : World S) → HasTemplates w → HasTemplates (delete_device_template id w).1
  unfolding delete_device_template
  delete_device_template-HasTemplates id w h = elim (Option-cases (template_row id w)) [
    | inl gone ↦ rw (gone, delete_device_template) h
    | inr (t, stored) ↦
        elim (Bool-cases
          (is_empty (S.device_repository.find (λ d. d.template_id == id) w.devices))) [
            | inr used ↦ rw (stored, used, delete_device_template) h
            | inl unused ↦
                let key : t.id ≡ id = S.template_repository.row-key w.templates id t stored in
                rw (stored, unused, key, delete_device_template)
                  (remove_template-HasTemplates id w
                    (λ i d at_i.
                      find-empty S.device_repository (λ x. x.template_id == id) w.devices i d unused
                        at_i)
                    h)
          ]
  ]

  create_firmware-HasTemplates :
      (now : ℕ) (user_id : Text) (dto : NewFirmware) (w : World S)
      → HasTemplates w
      → HasTemplates (create_firmware now user_id dto w).1
  unfolding create_firmware
  create_firmware-HasTemplates now user_id dto w h =
      elim (Option-cases (template_row dto.template_id w)) [
        | inl gone ↦ rw (gone, create_firmware) h
        | inr (t, stored) ↦
            rw (stored, create_firmware) (save_firmware-HasTemplates _ w (ap is_some stored) h)
      ]

  upload_firmware-HasTemplates :
      (o : Hosting) (now : ℕ) (user_id template_id version : Text) (notes : Option Text)
      (file_name : Text) (bytes : List ℕ) (w : World S)
      → HasTemplates w
      → HasTemplates (upload_firmware o now user_id template_id version notes file_name bytes w).2
  unfolding upload_firmware
  upload_firmware-HasTemplates o now user_id template_id version notes file_name bytes w h =
      elim (Option-cases (template_row template_id w)) [
        | inl gone ↦ rw (gone, upload_firmware) h
        | inr (t, stored) ↦ elim (Bool-cases (is_empty bytes)) [
          | inl nothing ↦ rw (stored, nothing, upload_firmware) h
          | inr some_bytes ↦
              rw (stored, some_bytes, upload_firmware)
                (save_firmware-HasTemplates _ w (ap is_some stored) h)
        ]
      ]

  update_firmware-HasTemplates :
      (id : Text) (dto : FirmwareUpdate) (w : World S)
      → HasTemplates w
      → HasTemplates (update_firmware id dto w).1
  unfolding update_firmware
  update_firmware-HasTemplates id dto w (devices, firmwares) =
      elim (Option-cases (firmware_row id w)) [
        | inl gone ↦ rw (gone, update_firmware) (devices, firmwares)
        | inr (f, stored) ↦
            rw (stored, update_firmware)
              (save_firmware-HasTemplates _ w (firmwares id f stored) (devices, firmwares))
      ]

  delete_firmware-HasTemplates :
      (id : Text) (w : World S) → HasTemplates w → HasTemplates (delete_firmware id w).1
  unfolding delete_firmware
  delete_firmware-HasTemplates id w h = elim (Option-cases (firmware_row id w)) [
    | inl gone ↦ rw (gone, delete_firmware) h
    | inr (f, stored) ↦ rw (stored, delete_firmware) (remove_firmware-HasTemplates f.id w h)
  ]

  -- One call of the services that writes the catalogue.
  pub data CatalogueStep (w : World S) : World S → Type 0 where
    templating : (dto : NewTemplate) → CatalogueStep w (create_device_template dto w).1
    retemplating :
        (id : Text) (dto : TemplateUpdate) → CatalogueStep w (update_device_template id dto w).1
    untemplating : (id : Text) → CatalogueStep w (delete_device_template id w).1
    building :
        (now : ℕ) (user_id : Text) (dto : NewFirmware)
        → CatalogueStep w (create_firmware now user_id dto w).1
    uploading :
        (o : Hosting) (now : ℕ) (user_id template_id version : Text) (notes : Option Text)
        (file_name : Text) (bytes : List ℕ)
        → CatalogueStep w
            (upload_firmware o now user_id template_id version notes file_name bytes w).2
    rebuilding : (id : Text) (dto : FirmwareUpdate) → CatalogueStep w (update_firmware id dto w).1
    unbuilding : (id : Text) → CatalogueStep w (delete_firmware id w).1

  pub data CatalogueRun (w : World S) : World S → Type 0 where
    begin : CatalogueRun w w
    and_then_step : {v u : World S} → CatalogueRun w v → CatalogueStep v u → CatalogueRun w u

  CatalogueStep-HasTemplates : {w v : World S} → HasTemplates w → CatalogueStep w v → HasTemplates v
  CatalogueStep-HasTemplates {w} h (templating dto) = create_device_template-HasTemplates dto w h
  CatalogueStep-HasTemplates {w} h (retemplating id dto) =
      update_device_template-HasTemplates id dto w h
  CatalogueStep-HasTemplates {w} h (untemplating id) = delete_device_template-HasTemplates id w h
  CatalogueStep-HasTemplates {w} h (building now user_id dto) =
      create_firmware-HasTemplates now user_id dto w h
  CatalogueStep-HasTemplates {w} h (uploading o now user_id t v notes file_name bytes) =
      upload_firmware-HasTemplates o now user_id t v notes file_name bytes w h
  CatalogueStep-HasTemplates {w} h (rebuilding id dto) = update_firmware-HasTemplates id dto w h
  CatalogueStep-HasTemplates {w} h (unbuilding id) = delete_firmware-HasTemplates id w h

  -- If every device and every firmware names a template that is stored, this stays so in every run of
  -- creations, changes and deletions of templates and of creations, uploads, changes and deletions of firmwares.
  pub CatalogueRun-HasTemplates :
      {w v : World S} → HasTemplates w → CatalogueRun w v → HasTemplates v
  CatalogueRun-HasTemplates h begin = h
  CatalogueRun-HasTemplates h (and_then_step r s) =
      CatalogueStep-HasTemplates (CatalogueRun-HasTemplates h r) s
