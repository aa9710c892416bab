-- ===== src/Catalogue/Owners.antt =====
-- Dashboards change by their owners' hands only, and a factory goes only when nothing belongs to it:
-- src/modules/dashboard, src/modules/factory.
use aio_t_cloud.Base.{
  Text, ◌==◌, ◌&&◌, eq_iff, false, Option, some, ◌≡◌, ◌≢◌, ◌∙◌, arith, inl, inr, Bool-cases,
  Option-cases,
}
use aio_t_cloud.Repository.{Repository, drop_if}
use aio_t_cloud.Repository.Found.{row-remove_other, find-empty}
use aio_t_cloud.Entities.{Device}
use aio_t_cloud.Database.{Store, World, device_row}
use aio_t_cloud.Response.{ok}
use aio_t_cloud.Accounts.{User, AccountStore, Accounts, user_row}
use aio_t_cloud.Catalogue.{
  Dashboard, SaveDashboard, find_own, redrawn, create_dashboard, update_dashboard, delete_dashboard,
  Factory, belongs_to, is_unused, delete_factory,
}

module _ {Widget : Type 0} (R : Repository (Dashboard Widget) (λ d. d.id)) where
  own_row :
      (user_id id : Text) (t : R.Table) (d : Dashboard Widget)
      → find_own R user_id id t ≡ some d
      → (R.row t d.id ≡ some d) × (d.user_id ≡ user_id)
  own_row user_id id t d h =
      let (stored, fits) = R.find_one-some (λ x. x.id == id && x.user_id == user_id) t d h in
      (stored, ground (arith, eq_iff d.user_id user_id))

  -- A dashboard of somebody else stays as it is, whatever a user changes, deletes or creates.
  pub dashboards_confined :
      (user_id id i : Text) (factory_id : Option Text) (dto : SaveDashboard Widget) (t : R.Table)
      (d : Dashboard Widget)
      → R.row t i ≡ some d
      → user_id ≢ d.user_id
      → (R.row (update_dashboard R user_id id dto t).1 i ≡ some d)
        × (R.row (delete_dashboard R user_id id t).1 i ≡ some d)
        × (R.row (create_dashboard R user_id factory_id dto t).1 i ≡ some d)
  unfolding update_dashboard delete_dashboard create_dashboard
  dashboards_confined user_id id i factory_id dto t d stored other =
      let created : R.row (create_dashboard R user_id factory_id dto t).1 i ≡ some d =
        R.row-save _ t i ∙ ground (arith, R.next_id_fresh t, eq_iff (R.next_id t) i) in
      elim (Option-cases (find_own R user_id id t)) [
        | inl gone ↦
            (rw (gone, update_dashboard) stored, rw (gone, delete_dashboard) stored, created)
        | inr (x, own) ↦
            let (at_x, is_own) = own_row user_id id t x own in
            let apart : (x.id == i) ≡ false = ground (arith, eq_iff x.id i) in
            (
              rw (own, update_dashboard) (R.row-save (redrawn dto x) t i ∙ rw apart stored),
              rw (own, delete_dashboard)
                  (row-remove_other R (λ y. y.id == x.id) t i d stored
                    (ground (arith, R.row-key t i d stored, eq_iff d.id x.id))),
              created,
            )
      ]

module _ {S : Store} {A : AccountStore} (R : Repository Factory (λ f. f.id)) where
  -- A factory that is deleted had no users and no devices, and no other factory goes with it.
  pub delete_factory-ok :
      (id : Text) (a : Accounts A) (w : World S) (t : R.Table)
      → (delete_factory R id a w t).0 ≡ ok tt
      → ((i : Text) (u : User) → user_row i a ≡ some u → belongs_to id u.factory_id ≡ false)
        × ((i : Text) (d : Device) → device_row i w ≡ some d → belongs_to id d.factory_id ≡ false)
        × ((i : Text)
            → R.row (delete_factory R id a w t).1 i ≡ drop_if (λ f. f.id == id) (R.row t i))
  unfolding delete_factory
  delete_factory-ok id a w t h = elim (Option-cases (R.row t id)) [
    | inl gone ↦ absurd (ground arith)
    | inr (f, stored) ↦ elim (Bool-cases (is_unused R id a w)) [
      | inr used ↦ absurd (ground arith)
      | inl unused ↦
          let key : f.id ≡ id = R.row-key t id f stored in
          (
            λ i u at_i.
                find-empty A.user_repository (λ x. belongs_to id x.factory_id) a.users i u
                  (ground arith) at_i,
            λ i d at_i.
                find-empty S.device_repository (λ x. belongs_to id x.factory_id) w.devices i d
                  (ground arith) at_i,
            λ i. rw (stored, unused, key, delete_factory) (R.row-remove (λ x. x.id == id) t i),
          )
    ]
  ]
