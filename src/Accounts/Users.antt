-- ===== src/Accounts/Users.antt =====
-- UserService. An answer holds the row that is stored; its DTO leaves the password out.
use aio_t_cloud.Base.{
  Text, codes, ◌==◌, ◌||◌, ◌&&◌, ◌++◌, ◌+◌, ℕ, suc, Bool, true, false, not, Option, none, some,
  or_default, is_truthy, ltb, [], ◌∷◌, if◌then◌else◌,
}
use aio_t_cloud.Constants.{RoleType, root, user, not_found, bad_request}
use aio_t_cloud.Response.{Response, ok, fail}
use aio_t_cloud.Accounts.People.{
  User, UserSettings, Crypto, AccountStore, Accounts, validate_hash, before_insert, before_update,
  insert_user, save_user, save_settings, settings_of, user_row,
}

abbrev pub verification_token_ttl_ms : ℕ
verification_token_ttl_ms = 86_400_000

-- `UserRegisterDto` and `CreateUserDto`; what is absent is `none`.
pub record NewUser : Type 0 where
  pub username : Text
  pub email : Option Text
  pub password : Text
  pub role : Option RoleType
  pub factory_id : Option Text

-- `UpdateUserDto`; what is absent is `none`.
pub record UserUpdate : Type 0 where
  pub username : Option Text
  pub password : Option Text
  pub email : Option Text
  pub role : Option RoleType
  pub is_active : Option Bool
  pub factory_id : Option (Option Text)

abbrev given : Option Text → Bool
given none = false
given (some t) = is_truthy t

abbrev is_text : Option Text → Option Text → Bool
is_text (some a) (some b) = a == b
is_text _ _ = false

-- The `where` clause of `findByUsernameOrEmail`: none, if neither is given.
unfoldable pub is_named : Option Text → Option Text → User → Bool
is_named username email u =
    if given username || given email
    then given email && is_text u.email email
      || (given username && is_text (some u.username) username)
    else true

-- `userRepository.create(dto)`
abbrev pub user_of : Text → NewUser → User
user_of id dto = record {
  id = id;
  role = or_default dto.role user;
  username = dto.username;
  email = dto.email;
  password = some dto.password;
  factory_id = dto.factory_id;
}

-- New settings, with the defaults of the columns.
abbrev pub settings_for : Text → Text → Bool → Option Text → Option ℕ → UserSettings
settings_for id user_id verified token expires = record {
  id = id;
  user_id = user_id;
  is_email_verified = verified;
  is_active = true;
  is_phone_verified = verified;
  email_verification_token = token;
  email_verification_token_expires_at = expires;
}

-- `Object.assign(user, userFields)`
abbrev pub assigned : UserUpdate → User → User
assigned dto u = record u {
  username = or_default dto.username u.username;
  password = elim dto.password [ none ↦ u.password | some p ↦ some p ];
  email = elim dto.email [ none ↦ u.email | some e ↦ some e ];
  role = or_default dto.role u.role;
  factory_id = or_default dto.factory_id u.factory_id;
}

-- Whether a verification token has run out.
abbrev pub token_expired : ℕ → UserSettings → Bool
token_expired now s = elim s.email_verification_token_expires_at [
  | none ↦ true
  | some t ↦ ltb t now
]

abbrev pub is_pending_token : Text → UserSettings → Bool
is_pending_token token s = elim s.email_verification_token [
  | none ↦ false
  | some t ↦ is_truthy t && t == token
]

abbrev pub verified : UserSettings → UserSettings
verified s = record s {
  is_email_verified = true;
  email_verification_token = none;
  email_verification_token_expires_at = none;
}

module _ {S : AccountStore} where
  unfoldable pub find_by_username_or_email : Option Text → Option Text → Accounts S → Option User
  find_by_username_or_email username email a =
      S.user_repository.find_one (is_named username email) a.users

  -- The new user's key.
  abbrev pub fresh_user : NewUser → Accounts S → User
  fresh_user dto a = user_of (S.user_repository.next_id a.users) dto

  -- `createUser`, with a mail that carries the token.
  unfoldable pub create_user : Crypto → ℕ → NewUser → Accounts S → Response User × Accounts S
  create_user c now dto a = elim (find_by_username_or_email (some dto.username) dto.email a) [
    | some _ ↦ (fail bad_request (codes "error.userAlreadyExists"), a)
    | none ↦
        let u = fresh_user dto a in
        let a1 = insert_user c u a in
        let token = c.random a1.drawn in
        let s =
          settings_for (S.settings_repository.next_id a1.settings) u.id false (some token)
            (some (now + verification_token_ttl_ms)) in
        (
          ok (before_insert c a.drawn u),
          record (save_settings s a1) {
            drawn = suc a1.drawn;
            mails = a1.mails ++ (or_default u.email [], token) ∷ [];
          },
        )
  ]

  -- `createUserByAdmin`
  unfoldable pub create_user_by_admin : Crypto → NewUser → Accounts S → Response User × Accounts S
  create_user_by_admin c dto a = elim (find_by_username_or_email (some dto.username) dto.email a) [
    | some _ ↦ (fail bad_request (codes "error.userAlreadyExists"), a)
    | none ↦
        let u = fresh_user dto a in
        let a1 = insert_user c u a in
        (
          ok (before_insert c a.drawn u),
          save_settings
              (settings_for (S.settings_repository.next_id a1.settings) u.id true none none) a1,
        )
  ]

  -- Another user has the new name or address.
  abbrev pub is_taken : Text → UserUpdate → Accounts S → Bool
  is_taken user_id dto a =
      if given dto.username || given dto.email
      then elim (find_by_username_or_email dto.username dto.email a) [
        | none ↦ false
        | some other ↦ not (other.id == user_id)
      ]
      else false

  -- `if (isActive !== undefined && user.settings) { ... }`
  abbrev pub set_active : Option Bool → User → Accounts S → Accounts S
  set_active none u a = a
  set_active (some active) u a = elim (settings_of u a) [
    | none ↦ a
    | some s ↦ save_settings (record s { is_active = active }) a
  ]

  -- `updateUser`; the exceptions of the database that it catches are not modelled.
  unfoldable pub update_user : Crypto → Text → UserUpdate → Accounts S → Response User × Accounts S
  update_user c user_id dto a = elim (user_row user_id a) [
    | none ↦ (fail not_found (codes "error.userNotFound"), a)
    | some u ↦
        let u' = assigned dto u in
        if is_taken user_id dto a
        then (fail bad_request (codes "error.userAlreadyExists"), a)
        else (ok (before_update c a.drawn u u'), set_active dto.is_active u' (save_user c u u' a))
  ]

  -- `changePassword`
  unfoldable pub change_password :
      Crypto → Text → (current next : Text) → Accounts S → Response (Unit {0}) × Accounts S
  change_password c user_id current next a = elim (user_row user_id a) [
    | none ↦ (fail not_found (codes "error.userNotFound"), a)
    | some u ↦
        if validate_hash c current u.password
        then (ok tt, save_user c u (record u { password = some next }) a)
        else (fail bad_request (codes "error.currentPasswordIncorrect"), a)
  ]

  abbrev root_user : Text → Accounts S → User
  root_user password a = record {
    id = S.user_repository.next_id a.users;
    role = root;
    username = codes "root";
    email = some (codes "root@example.com");
    password = some password;
    factory_id = none;
  }

  -- `initRootUser`
  unfoldable pub init_root_user : Crypto → Text → Accounts S → Accounts S
  init_root_user c root_password a = elim (find_by_username_or_email (some (codes "root")) none a) [
    | some _ ↦ a
    | none ↦
        let u = root_user root_password a in
        let a1 = insert_user c u a in
        save_settings (settings_for (S.settings_repository.next_id a1.settings) u.id true none none)
          a1
  ]

  -- The user with an address, and the settings; none, if either is missing.
  abbrev settings_by_email : Text → Accounts S → Option (User × UserSettings)
  settings_by_email email a = elim (find_by_username_or_email none (some email) a) [
    | none ↦ none
    | some u ↦ elim (settings_of u a) [ none ↦ none | some s ↦ some (u, s) ]
  ]

  -- `verifyEmail`
  unfoldable pub verify_email :
      ℕ → (email token : Text) → Accounts S → Response (Unit {0}) × Accounts S
  verify_email now email token a = elim (settings_by_email email a) [
    | none ↦ (fail not_found (codes "error.userNotFound"), a)
    | some (u, s) ↦
        if s.is_email_verified
        then (ok tt, a)
        else if is_pending_token token s && not (token_expired now s)
        then (ok tt, save_settings (verified s) a)
        else (fail bad_request (codes "error.invalidOrExpiredToken"), a)
  ]

  -- `resendVerification`
  unfoldable pub resend_verification :
      Crypto → ℕ → Text → Accounts S → Response (Unit {0}) × Accounts S
  resend_verification c now email a = elim (settings_by_email email a) [
    | none ↦ (fail not_found (codes "error.userNotFound"), a)
    | some (u, s) ↦
        let token = c.random a.drawn in
        let renewed =
          save_settings
            (record s {
              email_verification_token = some token;
              email_verification_token_expires_at = some (now + verification_token_ttl_ms);
            })
            a in
        if s.is_email_verified then (ok tt, a) else (
          ok tt,
          record renewed {
            drawn = suc a.drawn;
            mails = renewed.mails ++ (or_default u.email [], token) ∷ [];
          },
        )
  ]

  -- `getUser`
  unfoldable pub get_user : Text → Accounts S → Response User
  get_user user_id a = elim (user_row user_id a) [
    | none ↦ fail not_found (codes "error.userNotFound")
    | some u ↦ ok u
  ]
