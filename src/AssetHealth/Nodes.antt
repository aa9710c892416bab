-- ===== src/AssetHealth/Nodes.antt =====
-- The operations of AssetService on the nodes of an asset.
use aio_t_cloud.Base.{Text, codes, ◌==◌, ℕ, false, ◌&&◌, Option, none, some, or_default}
use aio_t_cloud.Entities.{Device, Asset}
use aio_t_cloud.Response.{Response, ok, fail, found, ◌>>=◌}
use aio_t_cloud.Scope.{AccessScope, in_scope}
use aio_t_cloud.Database.{Store, World, find_owned, save_device}
use aio_t_cloud.AssetHealth.Assess.{AssetAssessment, assess_asset}

module _ {S : Store} where
  abbrev pub find_owned_asset : Text → Text → World S → Option Asset
  find_owned_asset user_id id w =
      S.asset_repository.find_one (λ a. a.id == id && a.user_id == user_id) w.assets

  -- `findOneBy({ id: deviceId, userId, assetId })`
  abbrev pub find_node : Text → Text → Text → World S → Option Device
  find_node user_id asset_id id w =
      S.device_repository.find_one
        (λ d.
          d.id == id
          && d.user_id == user_id
          && elim d.asset_id [ none ↦ false | some a ↦ a == asset_id ])
        w.devices

  -- The guards: an asset and a device of the caller.
  unfoldable pub attach_target : Text → Text → Text → World S → Response (Asset × Device)
  attach_target user_id asset_id id w = do
    a ← found (find_owned_asset user_id asset_id w) (codes "error.assetNotFound")
    d ← found (find_owned user_id id w) (codes "error.deviceNotFound")
    ok (a, d)

  -- The guards: an asset of the caller, and one of its nodes.
  unfoldable pub node_target : Text → Text → Text → World S → Response (Asset × Device)
  node_target user_id asset_id id w = do
    a ← found (find_owned_asset user_id asset_id w) (codes "error.assetNotFound")
    d ← found (find_node user_id asset_id id w) (codes "error.deviceNotFound")
    ok (a, d)

  -- The save of a node, and the new assessment.
  abbrev pub save_node :
      ℕ
      → (Asset → Device → Device)
      → Response (Asset × Device)
      → World S
      → Response AssetAssessment × World S
  save_node now change (fail e m) w = (fail e m, w)
  save_node now change (ok (a, d)) w =
      let w' = save_device (change a d) w in
      (ok (assess_asset now a w').0, (assess_asset now a w').1)

  -- `attachNode`
  unfoldable pub attach_node :
      ℕ → Text → Text → Text → Option ℕ → World S → Response AssetAssessment × World S
  attach_node now user_id asset_id id weight w =
      save_node now
        (λ a d. record d {
          asset_id = some a.id;
          health_weight = or_default weight d.health_weight;
        })
        (attach_target user_id asset_id id w) w

  -- `updateNodeWeight`
  unfoldable pub update_node_weight :
      ℕ → Text → Text → Text → ℕ → World S → Response AssetAssessment × World S
  update_node_weight now user_id asset_id id weight w =
      save_node now (λ a d. record d { health_weight = weight }) (node_target user_id asset_id id w)
        w

  -- `detachNode`
  unfoldable pub detach_node : ℕ → Text → Text → Text → World S → Response AssetAssessment × World S
  detach_node now user_id asset_id id w =
      save_node now (λ a d. record d { asset_id = none }) (node_target user_id asset_id id w) w

  -- `getAsset`
  unfoldable pub get_asset : AccessScope → Text → World S → Response Asset
  get_asset scope id w =
      found
        (S.asset_repository.find_one (λ a. a.id == id && in_scope scope a.user_id a.factory_id)
          w.assets)
        (codes "error.assetNotFound")
