-- ===== src/Accounts/People.antt =====
-- The tables of users and of their settings, src/modules/user/user.entity.ts and user-settings.entity.ts,
-- and the hashing of passwords on the way to the database, src/entity-subscribers/user-subscriber.ts.
use aio_t_cloud.Base.{
  Text, ◌==◌, ℕ, suc, Bool, true, false, not, Option, none, some, is_truthy, List, if◌then◌else◌,
}
use aio_t_cloud.Constants.{RoleType}
use aio_t_cloud.Repository.{Repository}

-- `UserEntity`, less the names, the phone and the avatar, which no rule reads.
pub record User : Type 0 where
  pub id : Text
  pub role : RoleType
  pub username : Text
  pub email : Option Text
  pub password : Option Text
  pub factory_id : Option Text

pub record UserSettings : Type 0 where
  pub id : Text
  pub user_id : Text
  pub is_email_verified : Bool
  pub is_active : Bool
  pub is_phone_verified : Bool
  pub email_verification_token : Option Text
  pub email_verification_token_expires_at : Option ℕ

-- `bcrypt` and `randomBytes`: the n-th hash and the n-th random text. `compare` is never called on an
-- empty password.
pub record Crypto : Type 0 where
  pub hash : ℕ → Text → Text
  pub compare : Text → Text → Bool
  pub random : ℕ → Text
  -- `createHash('sha256')`
  pub digest : Text → Text

pub record AccountStore : Type 1 where
  pub user_repository : Repository User (λ u. u.id)
  pub settings_repository : Repository UserSettings (λ s. s.id)

-- `drawn` counts what has been drawn from the source of randomness; `mails` are the verification mails.
pub record Accounts (S : AccountStore) : Type 0 where
  pub users : S.user_repository.Table
  pub settings : S.settings_repository.Table
  pub mails : List (Text × Text)
  pub drawn : ℕ

-- `validateHash`
unfoldable pub validate_hash : Crypto → Text → Option Text → Bool
validate_hash c password none = false
validate_hash c password (some h) =
    if is_truthy password then if is_truthy h then c.compare password h else false else false

-- `a !== b` on two passwords that may be null.
abbrev pub differs : Option Text → Option Text → Bool
differs none none = false
differs (some a) (some b) = not (a == b)
differs _ _ = true

-- `beforeInsert`
unfoldable pub before_insert : Crypto → ℕ → User → User
before_insert c n u = elim u.password [
  | none ↦ u
  | some p ↦ if is_truthy p then record u { password = some (c.hash n p) } else u
]

-- `beforeUpdate`, for the row that is stored; no caller sets a password to null.
unfoldable pub before_update : Crypto → ℕ → User → User → User
before_update c n stored u = elim u.password [
  | none ↦ u
  | some p ↦
      if differs u.password stored.password then record u { password = some (c.hash n p) } else u
]

module _ {S : AccountStore} where
  abbrev pub user_row : Text → Accounts S → Option User
  user_row i a = S.user_repository.row a.users i

  -- `save` of a new user.
  abbrev pub insert_user : Crypto → User → Accounts S → Accounts S
  insert_user c u a = record a {
    users = S.user_repository.save (before_insert c a.drawn u) a.users;
    drawn = suc a.drawn;
  }

  -- `save` of a user that has been loaded.
  abbrev pub save_user : Crypto → User → User → Accounts S → Accounts S
  save_user c stored u a = record a {
    users = S.user_repository.save (before_update c a.drawn stored u) a.users;
    drawn = suc a.drawn;
  }

  abbrev pub save_settings : UserSettings → Accounts S → Accounts S
  save_settings s a = record a { settings = S.settings_repository.save s a.settings }

  -- The relation `settings`.
  abbrev pub settings_of : User → Accounts S → Option UserSettings
  settings_of u a = S.settings_repository.find_one (λ s. s.user_id == u.id) a.settings
