-- ===== src/Web/Files.antt =====
-- Dashboards as files: web/src/features/dashboard/lib/dashboard-config.ts. `zod`, which reads the file, and
-- `crypto.randomUUID`, whose n-th text is `uuid n`, are parameters; a file is what `zod` has accepted.
use aio_t_cloud.Base.{
  Text, ◌==◌, eq_iff, ℕ, suc, Bool, true, false, Option, none, some, or_default, is_some, List, [],
  ◌∷◌, map, find?, find?-some, All, ◌≡◌, ◌∙◌, refl, arith, inl, inr, Option-cases,
}
use aio_t_cloud.Number.{Number, natural}

pub data WidgetType : Type 0 where
  value chart action : WidgetType

-- `IDevice`, as far as it is read here.
pub record WebDevice : Type 0 where
  pub id : Text
  pub device_id : Text
  pub name : Text

-- What a widget and its copy in a file share.
pub record WidgetBody : Type 0 where
  pub widget_type : WidgetType
  pub field : Option Text
  pub title : Option Text
  pub x : Number
  pub y : Number
  pub w : Number
  pub h : Number

-- `IDashboardWidget`
pub record DashboardWidget : Type 0 where
  pub id : Text
  pub device_id : Text
  pub body : WidgetBody

-- The `device` of a widget in a file.
pub record DeviceReference : Type 0 where
  pub id : Option Text
  pub device_id : Option Text
  pub name : Option Text

-- An entry of `widgets` in a file.
pub record FileWidget : Type 0 where
  pub body : WidgetBody
  pub device : DeviceReference

-- `IDashboardConfigFile`, and what `configFileSchema` accepts.
pub record ConfigFile : Type 0 where
  pub version : Number
  pub name : Text
  pub is_default : Option Bool
  pub widgets : List FileWidget

pub record Draft : Type 0 where
  pub name : Text
  pub is_default : Bool
  pub widgets : List DashboardWidget

-- `IParsedDashboardConfig`
pub record ParsedConfig : Type 0 where
  pub name : Text
  pub is_default : Bool
  pub widgets : List DashboardWidget
  pub skipped_count : ℕ

-- `devices.find((d) => d.id === id)`; nothing has the id `undefined`.
abbrev pub by_id : List WebDevice → Option Text → Option WebDevice
by_id devices none = none
by_id devices (some id) = find? (λ d. d.id == id) devices

abbrev pub by_device_id : List WebDevice → Option Text → Option WebDevice
by_device_id devices none = none
by_device_id devices (some id) = find? (λ d. d.device_id == id) devices

-- `device?.field ?? ''`
abbrev text_of : (WebDevice → Text) → Option WebDevice → Text
text_of field none = []
text_of field (some d) = field d

-- A widget on the way to a file.
unfoldable pub file_widget : List WebDevice → DashboardWidget → FileWidget
file_widget devices w = record {
  body = w.body;
  device = record {
    id = some w.device_id;
    device_id = some (text_of (λ d. d.device_id) (by_id devices (some w.device_id)));
    name = some (text_of (λ d. d.name) (by_id devices (some w.device_id)));
  };
}

abbrev dashboard_config_version : Number
dashboard_config_version = natural 1

-- `buildDashboardConfigExport`
unfoldable pub build_dashboard_config_export : Draft → List WebDevice → ConfigFile
build_dashboard_config_export draft devices = record {
  version = dashboard_config_version;
  name = draft.name;
  is_default = some draft.is_default;
  widgets = map (file_widget devices) draft.widgets;
}

-- `a ?? b`: the device by its key, or by its physical id.
unfoldable pub matched : List WebDevice → DeviceReference → Option WebDevice
matched devices r = elim (by_id devices r.id) [
  | none ↦ by_device_id devices r.device_id
  | some d ↦ some d
]

-- The loop over the widgets of a file, with the number of ids drawn: the widgets, and how many are skipped.
unfoldable pub import_widgets :
    (ℕ → Text) → List WebDevice → ℕ → List FileWidget → List DashboardWidget × ℕ
import_widgets uuid devices n [] = ([], 0)
import_widgets uuid devices n (f ∷ fs) = elim (matched devices f.device) [
  | none ↦ let rest = import_widgets uuid devices n fs in (rest.0, suc rest.1)
  | some d ↦
      let rest = import_widgets uuid devices (suc n) fs in
      (record { id = uuid n; device_id = d.id; body = f.body } ∷ rest.0, rest.1)
]

-- `parseDashboardConfigImport`, after `zod`.
unfoldable pub parse_dashboard_config_import :
    (ℕ → Text) → ConfigFile → List WebDevice → ParsedConfig
parse_dashboard_config_import uuid file devices =
    let read = import_widgets uuid devices 0 file.widgets in
    record {
      name = file.name;
      is_default = or_default file.is_default false;
      widgets = read.0;
      skipped_count = read.1;
    }

-- Widgets with new ids, from the n-th on.
abbrev pub renewed : (ℕ → Text) → ℕ → List DashboardWidget → List DashboardWidget
renewed uuid n [] = []
renewed uuid n (w ∷ ws) = record w { id = uuid n } ∷ renewed uuid (suc n) ws

-- The device of a widget is one of the list.
abbrev pub IsKnown : List WebDevice → DashboardWidget → Type 0
IsKnown devices w = is_some (by_id devices (some w.device_id)) ≡ true

-- A widget of a known device is taken with a new id.
import_widgets-cons :
    (uuid : ℕ → Text) (devices : List WebDevice) (n : ℕ) (w : DashboardWidget)
    (fs : List FileWidget)
    → IsKnown devices w
    → import_widgets uuid devices n (file_widget devices w ∷ fs) ≡ (
      record w { id = uuid n } ∷ (import_widgets uuid devices (suc n) fs).0,
      (import_widgets uuid devices (suc n) fs).1,
    )
unfolding import_widgets matched file_widget
import_widgets-cons uuid devices n w fs known =
    elim (Option-cases (by_id devices (some w.device_id))) [
      | inl lost ↦ absurd (ground arith)
      | inr (d, found) ↦
          let same : d.id ≡ w.device_id = ground (
            arith,
            find?-some (λ x. x.id == w.device_id) devices d found,
            eq_iff d.id w.device_id,
          ) in
          rw (import_widgets, matched, file_widget, found, same) refl
    ]

import_widgets-map :
    (uuid : ℕ → Text) (devices : List WebDevice) (n : ℕ) (ws : List DashboardWidget)
    → All (IsKnown devices) ws
    → import_widgets uuid devices n (map (file_widget devices) ws) ≡ (renewed uuid n ws, 0)
unfolding import_widgets
import_widgets-map uuid devices n [] h = refl
import_widgets-map uuid devices n (w ∷ ws) (known, h) =
    import_widgets-cons uuid devices n w (map (file_widget devices) ws) known
    ∙ rw (import_widgets-map uuid devices (suc n) ws h) refl

-- A dashboard whose widgets all belong to devices of the list comes back from its file as it was, with new
-- ids of the widgets, and nothing is skipped.
pub parse_dashboard_config_import-build_dashboard_config_export :
    (uuid : ℕ → Text) (draft : Draft) (devices : List WebDevice)
    → All (IsKnown devices) draft.widgets
    → parse_dashboard_config_import uuid (build_dashboard_config_export draft devices) devices
      ≡ record {
        name = draft.name;
        is_default = draft.is_default;
        widgets = renewed uuid 0 draft.widgets;
        skipped_count = 0;
      }
unfolding parse_dashboard_config_import build_dashboard_config_export
parse_dashboard_config_import-build_dashboard_config_export uuid draft devices h =
    rw (import_widgets-map uuid devices 0 draft.widgets h) refl
