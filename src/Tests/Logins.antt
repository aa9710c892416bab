-- ===== src/Tests/Logins.antt =====
-- Logins, tokens and device secrets run on concrete tables.
use aio_t_cloud.Base.{
  codes, ◌==◌, ◌++◌, eq_iff, true, false, none, some, any, ◌≡◌, [], ◌∷◌, refl, arith, if◌then◌else◌,
}
use aio_t_cloud.Constants.{admin, user, access_token, not_found}
use aio_t_cloud.Repository.{Repository}
use aio_t_cloud.Repository.Rows.{rows_repository}
use aio_t_cloud.Repository.Found.{IsOnly}
use aio_t_cloud.Response.{ok, fail}
use aio_t_cloud.Accounts.{
  User, UserSettings, Crypto, AccountStore, Accounts, someone, user_row, settings_of, validate_hash,
  is_named, same_role, auth, validate_user, change_password, differs, create_access_token,
  validate_token, roles_guard, DeviceSecret, Vault, create_secret, revoke, verify,
}
use aio_t_cloud.Accounts.Passwords.{with_hash, auth_admits, validate_user-change_password}
use aio_t_cloud.Accounts.Secrets.{HasOneHash, unchanged, verify-revoke-create_secret}
use aio_t_cloud.Tests.{owner}

abbrev account_rows : AccountStore
account_rows = record {
  user_repository = rows_repository (λ u. u.id);
  settings_repository = rows_repository (λ s. s.id);
}

-- A hash that marks its text, and random texts that are all alike.
abbrev crypto : Crypto
crypto = record {
  hash = λ n t. codes "#" ++ t;
  compare = λ t h. h == (codes "#" ++ t);
  random = λ n. codes "r";
  digest = λ t. t;
}

abbrev ann : User
ann = record {
  id = owner;
  role = user;
  username = codes "ann";
  email = some (codes "ann@plant");
  password = some (codes "#old");
  factory_id = none;
}

abbrev ann_settings : UserSettings
ann_settings = record {
  id = codes "s1";
  user_id = owner;
  is_email_verified = true;
  is_active = true;
  is_phone_verified = true;
  email_verification_token = none;
  email_verification_token_expires_at = none;
}

abbrev accounts : Accounts account_rows
accounts = record { users = ann ∷ []; settings = ann_settings ∷ []; mails = []; drawn = 7 }

ann_stored : user_row owner accounts ≡ some ann
unfolding ◌==◌
ann_stored = refl

ann-IsOnly :
    IsOnly account_rows.user_repository
      (is_named (some (codes "ann")) (some (codes "ann")))
      owner
      accounts.users
ann-IsOnly j r h k = ground (arith, eq_iff owner j)

ann_named : is_named (some (codes "ann")) (some (codes "ann")) ann ≡ true
unfolding is_named ◌==◌
ann_named = refl

ann_knows : validate_hash crypto (codes "old") ann.password ≡ true
unfolding validate_hash ◌==◌
ann_knows = refl

ann_renews : differs (some (codes "new")) ann.password ≡ true
unfolding ◌==◌
ann_renews = refl

ann_owns : settings_of ann accounts ≡ some ann_settings
unfolding ◌==◌
ann_owns = refl

validate_user-change_password_example :
    validate_user crypto
      (codes "ann")
      (codes "new")
      (change_password crypto owner (codes "old") (codes "new") accounts).1
    ≡ (if validate_hash crypto (codes "new") (some (codes "#new"))
        then ok (with_hash (codes "#new") ann)
        else fail not_found (codes "error.userNotFound"))
validate_user-change_password_example =
    validate_user-change_password crypto owner (codes "old") (codes "new") (codes "ann")
      (codes "new") accounts ann ann_settings ann_stored ann-IsOnly ann_named ann_knows ann_renews
      ann_owns refl refl

ann_enters : auth (admin ∷ user ∷ []) (some (create_access_token ann)) accounts ≡ some (someone ann)
unfolding auth validate_token roles_guard create_access_token ◌==◌
ann_enters = refl

auth_admits_example :
    (u : User) × (someone ann ≡ someone u)
    × (user_row owner accounts ≡ some u)
    × (access_token ≡ access_token)
    × (any (λ x. same_role x u.role) (admin ∷ user ∷ []) ≡ true)
unfolding create_access_token
auth_admits_example =
    auth_admits admin (user ∷ []) (create_access_token ann) accounts (someone ann) ann_enters

abbrev secret_rows : Repository DeviceSecret (λ s. s.id)
secret_rows = rows_repository (λ s. s.id)

abbrev vault : Vault secret_rows
vault = record { secrets = []; drawn = 0 }

-- A secret, revoked after it has been made.
abbrev cut : Vault secret_rows
cut =
    (revoke 9000 (create_secret crypto owner none vault).0.device_secret.id
      (create_secret crypto owner none vault).1).1

cut-HasOneHash : HasOneHash cut
unfolding create_secret revoke ◌==◌
cut-HasOneHash i j a b h k _ =
    ground (arith, eq_iff (secret_rows.next_id []) i, eq_iff (secret_rows.next_id []) j)

verify-revoke-create_secret_example :
    (verify crypto
        (create_secret crypto owner none vault).0.plaintext
        (create_secret crypto owner none vault).1
      ≡ true)
    × (verify crypto (create_secret crypto owner none vault).0.plaintext cut ≡ false)
verify-revoke-create_secret_example =
    verify-revoke-create_secret crypto owner none 9000 vault
      (create_secret crypto owner none vault).1 cut unchanged unchanged cut-HasOneHash
