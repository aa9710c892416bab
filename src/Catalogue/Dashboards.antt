-- ===== src/Catalogue/Dashboards.antt =====
-- DashboardService: src/modules/dashboard/dashboard.service.ts. The widgets, which the service only stores,
-- are of any type.
use aio_t_cloud.Base.{
  Text, codes, ◌==◌, ◌&&◌, Bool, false, Option, none, some, or_default, List, [],
}
use aio_t_cloud.Constants.{not_found}
use aio_t_cloud.Repository.{Repository}
use aio_t_cloud.Response.{Response, ok, fail}
use aio_t_cloud.Scope.{AccessScope, in_scope}

pub record Dashboard (Widget : Type 0) : Type 0 where
  pub id : Text
  pub user_id : Text
  pub factory_id : Option Text
  pub name : Text
  pub is_default : Bool
  pub widgets : List Widget

-- `SaveDashboardDto`
pub record SaveDashboard (Widget : Type 0) : Type 0 where
  pub name : Text
  pub is_default : Option Bool
  pub widgets : Option (List Widget)

abbrev pub redrawn : {Widget : Type 0} → SaveDashboard Widget → Dashboard Widget → Dashboard Widget
redrawn dto d = record d {
  name = dto.name;
  is_default = or_default dto.is_default d.is_default;
  widgets = or_default dto.widgets d.widgets;
}

module _ {Widget : Type 0} (R : Repository (Dashboard Widget) (λ d. d.id)) where
  -- `findOneBy({ id, userId })`
  abbrev pub find_own : Text → Text → R.Table → Option (Dashboard Widget)
  find_own user_id id t = R.find_one (λ d. d.id == id && d.user_id == user_id) t

  -- `getUserDashboards`, in some order.
  unfoldable pub get_user_dashboards : AccessScope → R.Table → List (Dashboard Widget)
  get_user_dashboards scope t = R.find (λ d. in_scope scope d.user_id d.factory_id) t

  -- `getDashboard`
  unfoldable pub get_dashboard : AccessScope → Text → R.Table → Response (Dashboard Widget)
  get_dashboard scope id t =
      elim (R.find_one (λ d. d.id == id && in_scope scope d.user_id d.factory_id) t) [
        | none ↦ fail not_found (codes "error.dashboardNotFound")
        | some d ↦ ok d
      ]

  abbrev pub new_dashboard : Text → Option Text → SaveDashboard Widget → R.Table → Dashboard Widget
  new_dashboard user_id factory_id dto t = record {
    id = R.next_id t;
    user_id = user_id;
    factory_id = factory_id;
    name = dto.name;
    is_default = or_default dto.is_default false;
    widgets = or_default dto.widgets [];
  }

  -- `createDashboard`
  unfoldable pub create_dashboard :
      Text → Option Text → SaveDashboard Widget → R.Table → Response (Dashboard Widget) × R.Table
  create_dashboard user_id factory_id dto t = (
    ok (new_dashboard user_id factory_id dto t),
    R.save (new_dashboard user_id factory_id dto t) t,
  )

  -- `updateDashboard`
  unfoldable pub update_dashboard :
      Text → Text → SaveDashboard Widget → R.Table → Response (Dashboard Widget) × R.Table
  update_dashboard user_id id dto t = elim (find_own user_id id t) [
    | none ↦ (fail not_found (codes "error.dashboardNotFound"), t)
    | some d ↦ (ok (redrawn dto d), R.save (redrawn dto d) t)
  ]

  -- `deleteDashboard`
  unfoldable pub delete_dashboard : Text → Text → R.Table → Response (Unit {0}) × R.Table
  delete_dashboard user_id id t = elim (find_own user_id id t) [
    | none ↦ (fail not_found (codes "error.dashboardNotFound"), t)
    | some d ↦ (ok tt, R.remove (λ x. x.id == d.id) t)
  ]
