-- ===== src/Catalogue/Templates.antt =====
-- DeviceTemplateService: src/modules/device-template/device-template.service.ts.
use aio_t_cloud.Base.{
  Text, codes, ◌==◌, ◌&&◌, Bool, true, false, Option, none, some, or_default, is_some, is_empty,
  List, if◌then◌else◌,
}
use aio_t_cloud.Constants.{DeviceTemplateType, not_found, bad_request}
use aio_t_cloud.Entities.{DeviceTemplate, TelemetryFieldDefinition, ActionFieldDefinition}
use aio_t_cloud.Response.{Response, ok, fail}
use aio_t_cloud.Database.{Store, World}

-- `CreateDeviceTemplateDto`, less the texts that describe a template.
pub record NewTemplate : Type 0 where
  pub name : Text
  pub type : DeviceTemplateType
  pub telemetry_schema : Option (List TelemetryFieldDefinition)
  pub action_schema : Option (List ActionFieldDefinition)
  pub is_active : Option Bool

-- `UpdateDeviceTemplateDto`; what is absent is `none`.
pub record TemplateUpdate : Type 0 where
  pub name : Option Text
  pub type : Option DeviceTemplateType
  pub telemetry_schema : Option (List TelemetryFieldDefinition)
  pub action_schema : Option (List ActionFieldDefinition)
  pub is_active : Option Bool

-- `a ?? b` on two columns.
abbrev given_or {ℓ} : {A : Type ℓ} → Option A → Option A → Option A
given_or none b = b
given_or (some a) b = some a

-- `Object.assign(entity, dto)`
abbrev pub retemplated : TemplateUpdate → DeviceTemplate → DeviceTemplate
retemplated dto t = record t {
  name = or_default dto.name t.name;
  type = or_default dto.type t.type;
  telemetry_schema = given_or dto.telemetry_schema t.telemetry_schema;
  action_schema = given_or dto.action_schema t.action_schema;
  is_active = or_default dto.is_active t.is_active;
}

module _ {S : Store} where
  abbrev pub template_row : Text → World S → Option DeviceTemplate
  template_row id w = S.template_repository.row w.templates id

  abbrev pub save_template : DeviceTemplate → World S → World S
  save_template t w = record w { templates = S.template_repository.save t w.templates }

  abbrev pub new_template : NewTemplate → World S → DeviceTemplate
  new_template dto w = record {
    id = S.template_repository.next_id w.templates;
    name = dto.name;
    type = dto.type;
    telemetry_schema = dto.telemetry_schema;
    action_schema = dto.action_schema;
    is_active = or_default dto.is_active true;
  }

  -- `createDeviceTemplate`
  unfoldable pub create_device_template : NewTemplate → World S → Response DeviceTemplate × World S
  create_device_template dto w = (ok (new_template dto w), save_template (new_template dto w) w)

  -- `getDeviceTemplate`
  unfoldable pub get_device_template : Text → World S → Response DeviceTemplate
  get_device_template id w = elim (template_row id w) [
    | none ↦ fail not_found (codes "error.deviceTemplateNotFound")
    | some t ↦ ok t
  ]

  -- `updateDeviceTemplate`
  unfoldable pub update_device_template :
      Text → TemplateUpdate → World S → Response DeviceTemplate × World S
  update_device_template id dto w = elim (template_row id w) [
    | none ↦ (fail not_found (codes "error.deviceTemplateNotFound"), w)
    | some t ↦ (ok (retemplated dto t), save_template (retemplated dto t) w)
  ]

  -- The firmware that an attempt names is one of a template.
  abbrev is_build_of : Text → World S → Option Text → Bool
  is_build_of template_id w none = false
  is_build_of template_id w (some f) =
      is_some (
        S.firmware_repository.find_one (λ x. x.id == f && x.template_id == template_id) w.firmwares)

  -- `remove(entity)`, and what the foreign keys of firmwares (CASCADE) and of attempts (SET NULL) do.
  abbrev pub remove_template : Text → World S → World S
  remove_template id w = record w {
    templates = S.template_repository.remove (λ t. t.id == id) w.templates;
    firmwares = S.firmware_repository.remove (λ f. f.template_id == id) w.firmwares;
    ota_updates =
        S.ota_update_repository.update (λ u. is_build_of id w u.firmware_id)
          (λ u. record u { firmware_id = none }) w.ota_updates;
  }

  -- `deleteDeviceTemplate`
  unfoldable pub delete_device_template : Text → World S → Response (Unit {0}) × World S
  delete_device_template id w = elim (template_row id w) [
    | none ↦ (fail not_found (codes "error.deviceTemplateNotFound"), w)
    | some t ↦
        if is_empty (S.device_repository.find (λ d. d.template_id == id) w.devices)
        then (ok tt, remove_template t.id w)
        else (fail bad_request (codes "error.deviceTemplateInUse"), w)
  ]
