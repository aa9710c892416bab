-- ===== src/Tests/Assets.antt =====
-- Assets and their nodes run on the concrete data.
use aio_t_cloud.Base.{or_default, Text}
use aio_t_cloud.Base.{codes, ◌==◌, ◌≤◌, true, none, some, ◌≡◌, ◌↔◌, refl, is_empty}
use aio_t_cloud.Constants.{unknown}
use aio_t_cloud.Entities.{Device, Asset}
use aio_t_cloud.Response.{ok}
use aio_t_cloud.AssetHealth.{assess_asset, nodes_of, attach_node, attach_target}
use aio_t_cloud.AssetHealth.Outcomes.{attached, assess_asset_bounds, attach_node-ok}
use aio_t_cloud.Repository.{patch}
use aio_t_cloud.Database.{save_device, device_row}
use aio_t_cloud.Device.Presence.{ChangesOnly}
use aio_t_cloud.Tests.{rows, owner, fan, line, world}

assess_asset_bounds_example :
    ((assess_asset 9000 line world).0.factors.age ≤ 100)
    × ((assess_asset 9000 line world).0.factors.connectivity ≤ 100)
    × ((assess_asset 9000 line world).0.factors.telemetry_health ≤ 100)
    × (or_default (assess_asset 9000 line world).0.score 0 ≤ 100)
    × (((assess_asset 9000 line world).0.score ≡ none) ↔ (is_empty (nodes_of line world) ≡ true))
    × (((assess_asset 9000 line world).0.status ≡ unknown)
        ↔ (is_empty (nodes_of line world) ≡ true))
    × ((i : Text)
        → rows.asset_repository.row (assess_asset 9000 line world).1.assets i
          ≡ patch
              (λ x. x.id == line.id)
              (λ x. record x {
                health_index = (assess_asset 9000 line world).0.score;
                health_status = (assess_asset 9000 line world).0.status;
                health_assessed_at = some 9000;
              })
              (rows.asset_repository.row world.assets i))
assess_asset_bounds_example = assess_asset_bounds 9000 line world

fan_joined :
    (attach_node 9000 owner (codes "asset-1") (codes "d2") (some 2) world).0
    ≡ ok (assess_asset 9000 line (save_device (attached (codes "asset-1") (some 2) fan) world)).0
unfolding attach_node attach_target ◌==◌
fan_joined = refl

attach_node-ok_example :
    (a : Asset) × (d : Device) × (rows.asset_repository.row world.assets a.id ≡ some a)
    × (a.id ≡ codes "asset-1")
    × (a.user_id ≡ owner)
    × (d.id ≡ codes "d2")
    × (d.user_id ≡ owner)
    × (device_row d.id world ≡ some d)
    × ChangesOnly d
        (attached (codes "asset-1") (some 2) d)
        world
        (attach_node 9000 owner (codes "asset-1") (codes "d2") (some 2) world).1
attach_node-ok_example =
    attach_node-ok 9000 owner (codes "asset-1") (codes "d2") (some 2) world
      (assess_asset 9000 line (save_device (attached (codes "asset-1") (some 2) fan) world)).0
      fan_joined
