-- ===== src/Tests/Pages.antt =====
-- A dashboard goes to a file and back.
use aio_t_cloud.Base.{codes, ◌==◌, true, none, some, ◌≡◌, [], ◌∷◌, refl}
use aio_t_cloud.Number.{natural}
use aio_t_cloud.Web.Files.{
  WebDevice, DashboardWidget, Draft, chart, build_dashboard_config_export,
  parse_dashboard_config_import, parse_dashboard_config_import-build_dashboard_config_export,
  renewed, IsKnown,
}

abbrev boiler : WebDevice
boiler = record { id = codes "d1"; device_id = codes "esp-1"; name = codes "Boiler" }

abbrev curve : DashboardWidget
curve = record {
  id = codes "w1";
  device_id = codes "d1";
  body = record {
    widget_type = chart;
    field = some (codes "temperature");
    title = none;
    x = natural 0;
    y = natural 0;
    w = natural 4;
    h = natural 2;
  };
}

abbrev draft : Draft
draft = record { name = codes "Plant"; is_default = true; widgets = curve ∷ [] }

curve-IsKnown : IsKnown (boiler ∷ []) curve
unfolding ◌==◌
curve-IsKnown = refl

parse_dashboard_config_import-build_dashboard_config_export_example :
    parse_dashboard_config_import
      (λ n. codes "w2")
      (build_dashboard_config_export draft (boiler ∷ []))
      (boiler ∷ [])
    ≡ record {
      name = codes "Plant";
      is_default = true;
      widgets = renewed (λ n. codes "w2") 0 (curve ∷ []);
      skipped_count = 0;
    }
parse_dashboard_config_import-build_dashboard_config_export_example =
    parse_dashboard_config_import-build_dashboard_config_export (λ n. codes "w2") draft
      (boiler ∷ []) (curve-IsKnown, tt)
