-- ===== src/Catalogue/Factories.antt =====
-- FactoryService: src/modules/factory/factory.service.ts.
use aio_t_cloud.Base.{
  Text, codes, ◌==◌, ◌&&◌, Bool, false, Option, none, some, or_default, is_empty, if◌then◌else◌,
}
use aio_t_cloud.Constants.{not_found, bad_request}
use aio_t_cloud.Repository.{Repository}
use aio_t_cloud.Response.{Response, ok, fail}
use aio_t_cloud.Database.{Store, World}
use aio_t_cloud.Accounts.{AccountStore, Accounts}

pub record Factory : Type 0 where
  pub id : Text
  pub name : Text
  pub address : Option Text
  pub description : Option Text

-- `CreateFactoryDto`
pub record NewFactory : Type 0 where
  pub name : Text
  pub address : Option Text
  pub description : Option Text

-- `UpdateFactoryDto`; what is absent is `none`.
pub record FactoryUpdate : Type 0 where
  pub name : Option Text
  pub address : Option (Option Text)
  pub description : Option (Option Text)

-- `Object.assign(entity, dto)`
abbrev pub refounded : FactoryUpdate → Factory → Factory
refounded dto f = record f {
  name = or_default dto.name f.name;
  address = or_default dto.address f.address;
  description = or_default dto.description f.description;
}

abbrev pub belongs_to : Text → Option Text → Bool
belongs_to id none = false
belongs_to id (some f) = f == id

module _ (R : Repository Factory (λ f. f.id)) where
  -- `getFactory`
  unfoldable pub get_factory : Text → R.Table → Response Factory
  get_factory id t = elim (R.row t id) [
    | none ↦ fail not_found (codes "error.factoryNotFound")
    | some f ↦ ok f
  ]

  abbrev pub new_factory : NewFactory → R.Table → Factory
  new_factory dto t = record {
    id = R.next_id t;
    name = dto.name;
    address = dto.address;
    description = dto.description;
  }

  -- `createFactory`
  unfoldable pub create_factory : NewFactory → R.Table → Response Factory × R.Table
  create_factory dto t = (ok (new_factory dto t), R.save (new_factory dto t) t)

  -- `updateFactory`
  unfoldable pub update_factory : Text → FactoryUpdate → R.Table → Response Factory × R.Table
  update_factory id dto t = elim (R.row t id) [
    | none ↦ (fail not_found (codes "error.factoryNotFound"), t)
    | some f ↦ (ok (refounded dto f), R.save (refounded dto f) t)
  ]

  -- No user and no device belongs to a factory.
  abbrev pub is_unused : {S : Store} {A : AccountStore} → Text → Accounts A → World S → Bool
  is_unused {S} {A} id a w =
      is_empty (A.user_repository.find (λ u. belongs_to id u.factory_id) a.users)
      && is_empty (S.device_repository.find (λ d. belongs_to id d.factory_id) w.devices)

  -- `deleteFactory`
  unfoldable pub delete_factory :
      {S : Store} {A : AccountStore}
      → Text
      → Accounts A
      → World S
      → R.Table
      → Response (Unit {0}) × R.Table
  delete_factory id a w t = elim (R.row t id) [
    | none ↦ (fail not_found (codes "error.factoryNotFound"), t)
    | some f ↦
        if is_unused id a w
        then (ok tt, R.remove (λ x. x.id == f.id) t)
        else (fail bad_request (codes "error.factoryInUse"), t)
  ]
