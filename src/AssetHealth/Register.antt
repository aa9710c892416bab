-- ===== src/AssetHealth/Register.antt =====
-- The operations of AssetService on the assets themselves: src/modules/asset/asset.service.ts. The type and
-- the description, which no rule reads, are left out.
use aio_t_cloud.Base.{
  Text, codes, ◌==◌, ◌&&◌, eq_iff, ℕ, Bool, true, false, Option, none, some, or_default, ◌≡◌, refl,
  arith, inl, inr, Option-cases,
}
use aio_t_cloud.Constants.{unknown, not_found}
use aio_t_cloud.Entities.{Device, Asset}
use aio_t_cloud.Repository.{patch, drop_if}
use aio_t_cloud.Response.{Response, ok, fail}
use aio_t_cloud.Database.{Store, World, device_row}
use aio_t_cloud.AssetHealth.Nodes.{find_owned_asset}

-- `CreateAssetDto`
pub record NewAsset : Type 0 where
  pub name : Text
  pub installed_at : Option ℕ
  pub expected_lifespan_months : Option ℕ

-- `UpdateAssetDto`; what is absent is `none`.
pub record AssetUpdate : Type 0 where
  pub name : Option Text
  pub installed_at : Option (Option ℕ)
  pub expected_lifespan_months : Option (Option ℕ)
  pub is_active : Option Bool

-- `Object.assign(entity, dto)`
abbrev pub reequipped : AssetUpdate → Asset → Asset
reequipped dto a = record a {
  name = or_default dto.name a.name;
  installed_at = or_default dto.installed_at a.installed_at;
  expected_lifespan_months = or_default dto.expected_lifespan_months a.expected_lifespan_months;
  is_active = or_default dto.is_active a.is_active;
}

abbrev pub is_node_of : Text → Device → Bool
is_node_of id d = elim d.asset_id [ none ↦ false | some a ↦ a == id ]

abbrev pub detached : Device → Device
detached d = record d { asset_id = none }

module _ {S : Store} where
  abbrev pub save_asset : Asset → World S → World S
  save_asset a w = record w { assets = S.asset_repository.save a w.assets }

  abbrev pub new_asset : ℕ → Text → Option Text → NewAsset → World S → Asset
  new_asset now user_id factory_id dto w = record {
    id = S.asset_repository.next_id w.assets;
    created_at = now;
    name = dto.name;
    user_id = user_id;
    factory_id = factory_id;
    installed_at = dto.installed_at;
    expected_lifespan_months = dto.expected_lifespan_months;
    health_index = none;
    health_status = unknown;
    health_assessed_at = none;
    is_active = true;
  }

  -- `createAsset`
  unfoldable pub create_asset :
      ℕ → Text → Option Text → NewAsset → World S → Response Asset × World S
  create_asset now user_id factory_id dto w = (
    ok (new_asset now user_id factory_id dto w),
    save_asset (new_asset now user_id factory_id dto w) w,
  )

  -- `updateAsset`
  unfoldable pub update_asset : Text → Text → AssetUpdate → World S → Response Asset × World S
  update_asset user_id id dto w = elim (find_owned_asset user_id id w) [
    | none ↦ (fail not_found (codes "error.assetNotFound"), w)
    | some a ↦ (ok (reequipped dto a), save_asset (reequipped dto a) w)
  ]

  -- `remove(entity)`, and what the foreign key of the devices (SET NULL) does.
  abbrev pub remove_asset : Text → World S → World S
  remove_asset id w = record w {
    assets = S.asset_repository.remove (λ a. a.id == id) w.assets;
    devices = S.device_repository.update (is_node_of id) detached w.devices;
  }

  -- `deleteAsset`
  unfoldable pub delete_asset : Text → Text → World S → Response (Unit {0}) × World S
  delete_asset user_id id w = elim (find_owned_asset user_id id w) [
    | none ↦ (fail not_found (codes "error.assetNotFound"), w)
    | some a ↦ (ok tt, remove_asset a.id w)
  ]

  -- A deletion that succeeds removes the asset of the caller, detaches its nodes, and changes no other
  -- asset and no other device.
  pub delete_asset-ok :
      (user_id id : Text) (w : World S)
      → (delete_asset user_id id w).0 ≡ ok tt
      → (a : Asset) × (a.id ≡ id)
        × (a.user_id ≡ user_id)
        × ((i : Text)
            → S.asset_repository.row (delete_asset user_id id w).1.assets i
              ≡ drop_if (λ x. x.id == id) (S.asset_repository.row w.assets i))
        × ((i : Text)
            → device_row i (delete_asset user_id id w).1
              ≡ patch (is_node_of id) detached (device_row i w))
  unfolding delete_asset
  delete_asset-ok user_id id w h = elim (Option-cases (find_owned_asset user_id id w)) [
    | inl gone ↦ absurd (ground arith)
    | inr (a, own) ↦
        let (_, fits) =
          S.asset_repository.find_one-some (λ x. x.id == id && x.user_id == user_id) w.assets a
            own in
        let key : a.id ≡ id = ground (arith, eq_iff a.id id) in
        (
          a,
          key,
          ground (arith, eq_iff a.user_id user_id),
          λ i.
              rw (own, key, delete_asset)
                (S.asset_repository.row-remove (λ x. x.id == id) w.assets i),
          λ i.
              rw (own, key, delete_asset)
                (S.device_repository.row-update (is_node_of id) detached w.devices i (λ r. refl)),
        )
  ]
