-- ===== src/Scope.antt =====
-- Read access: src/common/access-scope.util.ts.
use aio_t_cloud.Base.{Text, ◌==◌, Bool, true, false, Option, none, some, is_truthy, if◌then◌else◌}
use aio_t_cloud.Constants.{RoleType, guest}

pub data AccessScope : Type 0 where
  unrestricted : AccessScope
  of_factory of_user : Text → AccessScope

-- What `resolveAccessScope` reads of a `UserEntity`.
pub record Account : Type 0 where
  pub id : Text
  pub role : RoleType
  pub factory_id : Option Text

abbrev scope_of_member : Text → Option Text → AccessScope
scope_of_member id none = of_user id
scope_of_member id (some f) = if is_truthy f then of_factory f else of_user id

unfoldable pub resolve_access_scope : Account → AccessScope
resolve_access_scope u = elim u.role [
  | guest ↦ unrestricted
  | _ ↦ scope_of_member u.id u.factory_id
]

-- The columns that `...scope` adds to a `where` clause, tested on a row's owner and factory.
abbrev pub in_scope : AccessScope → Text → Option Text → Bool
in_scope unrestricted owner factory = true
in_scope (of_user u) owner factory = owner == u
in_scope (of_factory f) owner factory = elim factory [ none ↦ false | some g ↦ g == f ]
