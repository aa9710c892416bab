-- ===== src/Catalogue/Firmwares.antt =====
-- FirmwareService: src/modules/device-template/firmware.service.ts. The disk, the digest and the names of
-- files are parameters.
use aio_t_cloud.Base.{
  Text, codes, ◌==◌, ◌++◌, ℕ, Bool, true, false, Option, none, some, or_default, is_empty, List,
  ◌∷◌, [], length, if◌then◌else◌,
}
use aio_t_cloud.Constants.{not_found, bad_request}
use aio_t_cloud.Entities.{Firmware, DeviceOtaUpdate}
use aio_t_cloud.Response.{Response, ok, fail}
use aio_t_cloud.Database.{Store, World}
use aio_t_cloud.Catalogue.Templates.{template_row}

-- `CreateFirmwareDto`
pub record NewFirmware : Type 0 where
  pub template_id : Text
  pub version : Text
  pub file_url : Text
  pub checksum : Option Text
  pub size_bytes : Option ℕ
  pub release_notes : Option Text

-- `UpdateFirmwareDto`
pub record FirmwareUpdate : Type 0 where
  pub release_notes : Option (Option Text)
  pub is_active : Option Bool

-- `createHash('sha256')`, and the public address of the server.
pub record Hosting : Type 0 where
  pub digest : List ℕ → Text
  pub public_url : Text

abbrev pub upload_path : Hosting → Text → Text
upload_path h file_name = h.public_url ++ codes "/uploads/firmware/" ++ file_name

-- `Object.assign(entity, dto)`
abbrev pub reflashed : FirmwareUpdate → Firmware → Firmware
reflashed dto f = record f {
  release_notes = or_default dto.release_notes f.release_notes;
  is_active = or_default dto.is_active f.is_active;
}

-- What is registered of an uploaded file.
abbrev pub uploaded :
    Hosting → (template_id version : Text) → Option Text → Text → List ℕ → NewFirmware
uploaded h template_id version notes file_name bytes = record {
  template_id = template_id;
  version = version;
  file_url = upload_path h file_name;
  checksum = some (h.digest bytes);
  size_bytes = some (length bytes);
  release_notes = notes;
}

abbrev names_firmware : Text → DeviceOtaUpdate → Bool
names_firmware id u = elim u.firmware_id [ none ↦ false | some f ↦ f == id ]

module _ {S : Store} where
  abbrev pub firmware_row : Text → World S → Option Firmware
  firmware_row id w = S.firmware_repository.row w.firmwares id

  abbrev pub save_firmware : Firmware → World S → World S
  save_firmware f w = record w { firmwares = S.firmware_repository.save f w.firmwares }

  abbrev pub new_firmware : ℕ → Text → NewFirmware → World S → Firmware
  new_firmware now user_id dto w = record {
    id = S.firmware_repository.next_id w.firmwares;
    created_at = now;
    template_id = dto.template_id;
    version = dto.version;
    file_url = dto.file_url;
    checksum = dto.checksum;
    size_bytes = dto.size_bytes;
    release_notes = dto.release_notes;
    is_active = true;
    created_by = user_id;
  }

  -- `createFirmware`
  unfoldable pub create_firmware : ℕ → Text → NewFirmware → World S → Response Firmware × World S
  create_firmware now user_id dto w = elim (template_row dto.template_id w) [
    | none ↦ (fail not_found (codes "error.deviceTemplateNotFound"), w)
    | some t ↦
        (ok (new_firmware now user_id dto w), save_firmware (new_firmware now user_id dto w) w)
  ]

  -- `uploadFirmware`, with the files written to the disk.
  unfoldable pub upload_firmware :
      Hosting
      → ℕ
      → (user_id template_id version : Text) → Option Text
      → (file_name : Text) → List ℕ
      → World S
      → Response Firmware × List (Text × List ℕ) × World S
  upload_firmware h now user_id template_id version notes file_name bytes w =
      elim (template_row template_id w) [
        | none ↦ (fail not_found (codes "error.deviceTemplateNotFound"), [], w)
        | some t ↦
            let f =
              new_firmware now user_id (uploaded h template_id version notes file_name bytes) w in
            if is_empty bytes
            then (fail bad_request (codes "error.firmwareFileRequired"), [], w)
            else (ok f, (file_name, bytes) ∷ [], save_firmware f w)
      ]

  -- `getFirmware`
  unfoldable pub get_firmware : Text → World S → Response Firmware
  get_firmware id w = elim (firmware_row id w) [
    | none ↦ fail not_found (codes "error.firmwareNotFound")
    | some f ↦ ok f
  ]

  -- `updateFirmware`
  unfoldable pub update_firmware : Text → FirmwareUpdate → World S → Response Firmware × World S
  update_firmware id dto w = elim (firmware_row id w) [
    | none ↦ (fail not_found (codes "error.firmwareNotFound"), w)
    | some f ↦ (ok (reflashed dto f), save_firmware (reflashed dto f) w)
  ]

  -- `remove(entity)`, and what the foreign key of the attempts (SET NULL) does.
  abbrev pub remove_firmware : Text → World S → World S
  remove_firmware id w = record w {
    firmwares = S.firmware_repository.remove (λ f. f.id == id) w.firmwares;
    ota_updates =
        S.ota_update_repository.update (names_firmware id) (λ u. record u { firmware_id = none })
          w.ota_updates;
  }

  -- `deleteFirmware`
  unfoldable pub delete_firmware : Text → World S → Response (Unit {0}) × World S
  delete_firmware id w = elim (firmware_row id w) [
    | none ↦ (fail not_found (codes "error.firmwareNotFound"), w)
    | some f ↦ (ok tt, remove_firmware f.id w)
  ]
