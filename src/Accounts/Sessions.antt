-- ===== src/Accounts/Sessions.antt =====
-- AuthService, JwtStrategy and RolesGuard.
use aio_t_cloud.Base.{
  Text, codes, Bool, true, false, not, Option, none, some, is_empty, List, any, if◌then◌else◌,
}
use aio_t_cloud.Constants.{
  RoleType, root, user, admin, guest, TokenType, access_token, refresh_token, ErrorCode, not_found,
  forbidden, unauthorized,
}
use aio_t_cloud.Response.{Response, ok, fail}
use aio_t_cloud.Accounts.People.{
  User, UserSettings, Crypto, AccountStore, Accounts, validate_hash, settings_of, user_row,
}
use aio_t_cloud.Accounts.Users.{find_by_username_or_email}

-- The claims of a token.
pub record TokenClaims : Type 0 where
  pub user_id : Text
  pub role : RoleType
  pub factory_id : Option Text
  pub type : TokenType

-- The claims that `createAccessToken` signs.
unfoldable pub create_access_token : User → TokenClaims
create_access_token u = record {
  user_id = u.id;
  role = u.role;
  factory_id = u.factory_id;
  type = access_token;
}

abbrev is_verified : Option UserSettings → Bool
is_verified none = false
is_verified (some s) = s.is_email_verified

abbrev is_deactivated : Option UserSettings → Bool
is_deactivated none = false
is_deactivated (some s) = not s.is_active

-- `a === b` on two roles.
abbrev pub same_role : RoleType → RoleType → Bool
same_role root root = true
same_role user user = true
same_role admin admin = true
same_role guest guest = true
same_role _ _ = false

-- What `JwtStrategy.validate` returns; whatever it returns is the request's user.
pub data Principal : Type 0 where
  someone : User → Principal
  refusal : ErrorCode → Text → Principal

-- `request.user.role`
abbrev pub principal_role : Principal → Option RoleType
principal_role (someone u) = some u.role
principal_role (refusal e m) = none

-- `RolesGuard.canActivate`
unfoldable pub roles_guard : List RoleType → Principal → Bool
roles_guard roles p =
    if is_empty roles
    then true
    else elim (principal_role p) [ none ↦ false | some r ↦ any (λ x. same_role x r) roles ]

module _ {S : AccountStore} where
  -- `validateUser`, after the password.
  abbrev admitted : User → Accounts S → Response User
  admitted u a =
      if is_verified (settings_of u a)
      then if is_deactivated (settings_of u a)
        then fail forbidden (codes "error.userDeactivated")
        else ok u
      else fail forbidden (codes "error.emailNotVerified")

  -- `validateUser`
  unfoldable pub validate_user : Crypto → (name password : Text) → Accounts S → Response User
  validate_user c name password a = elim (find_by_username_or_email (some name) (some name) a) [
    | none ↦ fail not_found (codes "error.userNotFound")
    | some u ↦
        if validate_hash c password u.password
        then admitted u a
        else fail not_found (codes "error.userNotFound")
  ]

  -- `JwtStrategy.validate`
  unfoldable pub validate_token : TokenClaims → Accounts S → Principal
  validate_token t a = elim t.type [
    | refresh_token ↦ refusal unauthorized (codes "error.invalidTokenType")
    | access_token ↦ elim (user_row t.user_id a) [
      | none ↦ refusal unauthorized (codes "error.userNotFound")
      | some u ↦ someone u
    ]
  ]

  -- `@Auth(roles)`: the strategy, then the guard. `none` is a token that does not verify.
  unfoldable pub auth : List RoleType → Option TokenClaims → Accounts S → Option Principal
  auth roles none a = none
  auth roles (some t) a = let p = validate_token t a in if roles_guard roles p then some p else none
