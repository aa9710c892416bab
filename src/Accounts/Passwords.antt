-- ===== src/Accounts/Passwords.antt =====
-- Who is let in: logins after a change of password, and requests with a token. src/modules/user/user.service.ts,
-- src/modules/auth.
use aio_t_cloud.Base.{
  Text, codes, suc, true, Option, some, List, ◌∷◌, any, ◌≡◌, ◌∙◌, refl, ap, arith, inl, inr, ◌⊎◌,
  Bool-cases, Option-cases, if◌then◌else◌,
}
use aio_t_cloud.Constants.{
  RoleType, TokenType, access_token, refresh_token, ErrorCode, unauthorized, not_found,
}
use aio_t_cloud.Repository.Found.{IsOnly, find_one-save}
use aio_t_cloud.Response.{ok, fail}
use aio_t_cloud.Accounts.{
  User, UserSettings, Crypto, AccountStore, Accounts, TokenClaims, Principal, someone, refusal,
  user_row, settings_of, validate_hash, is_named, find_by_username_or_email, same_role, roles_guard,
  validate_token, auth, validate_user, change_password, differs, before_update,
}

TokenType-cases : (x : TokenType) → (x ≡ access_token) ⊎ (x ≡ refresh_token)
TokenType-cases access_token = inl refl
TokenType-cases refresh_token = inr refl

-- The user row after a change of password.
abbrev pub with_hash : Text → User → User
with_hash h u = record u { password = some h }

named_with_hash :
    (h : Text) (username email : Option Text) (u : User)
    → is_named username email (with_hash h u) ≡ is_named username email u
unfolding is_named
named_with_hash h username email u = refl

module _ {S : AccountStore} where
  -- The strategy returns a refusal, or the stored user of an access token.
  pub validate_token-cases :
      (t : TokenClaims) (a : Accounts S)
      → ((e : ErrorCode) × (m : Text) × (validate_token t a ≡ refusal e m))
        ⊎ ((u : User) × (validate_token t a ≡ someone u)
            × (user_row t.user_id a ≡ some u)
            × (t.type ≡ access_token))
  unfolding validate_token
  validate_token-cases t a = elim (TokenType-cases t.type) [
    | inr refreshed ↦
        inl (unauthorized, codes "error.invalidTokenType", rw (refreshed, validate_token) refl)
    | inl access ↦ elim (Option-cases (user_row t.user_id a)) [
      | inl gone ↦
          inl (unauthorized, codes "error.userNotFound", rw (access, gone, validate_token) refl)
      | inr (u, stored) ↦ inr (u, rw (access, stored, validate_token) refl, stored, access)
    ]
  ]

  -- A request that passes the strategy and a guard with some roles is a stored user's, with one of those
  -- roles and an access token of that user.
  pub auth_admits :
      (role : RoleType) (roles : List RoleType) (t : TokenClaims) (a : Accounts S) (p : Principal)
      → auth (role ∷ roles) (some t) a ≡ some p
      → (u : User) × (p ≡ someone u)
        × (user_row t.user_id a ≡ some u)
        × (t.type ≡ access_token)
        × (any (λ x. same_role x u.role) (role ∷ roles) ≡ true)
  unfolding auth roles_guard
  auth_admits role roles t a p h = elim (validate_token-cases t a) [
    | inl (e, m, refused) ↦ absurd (let k = rw refused at h in ground (arith, k))
    | inr (u, is_u, stored, access) ↦
        let k = rw is_u at h in (u, ground (arith, k), stored, access, ground (arith, k))
  ]

  changed_users :
      (c : Crypto) (user_id current next : Text) (a : Accounts S) (u : User)
      → user_row user_id a ≡ some u
      → validate_hash c current u.password ≡ true
      → differs (some next) u.password ≡ true
      → (change_password c user_id current next a).1 ≡ record a {
        users = S.user_repository.save (with_hash (c.hash a.drawn next) u) a.users;
        drawn = suc a.drawn;
      }
  unfolding change_password before_update
  changed_users c user_id current next a u stored knows new =
      rw (stored, change_password, knows, before_update, new) refl

  -- Once a user with verified and active settings, alone under a name, has changed the password to one that
  -- is not the stored hash, a login under that name succeeds with exactly the passwords that fit the new hash.
  pub validate_user-change_password :
      (c : Crypto) (user_id current next name password : Text) (a : Accounts S) (u : User)
      (s : UserSettings)
      → user_row user_id a ≡ some u
      → IsOnly S.user_repository (is_named (some name) (some name)) user_id a.users
      → is_named (some name) (some name) u ≡ true
      → validate_hash c current u.password ≡ true
      → differs (some next) u.password ≡ true
      → settings_of u a ≡ some s
      → s.is_email_verified ≡ true
      → s.is_active ≡ true
      → validate_user c name password (change_password c user_id current next a).1 ≡ (
          if validate_hash c password (some (c.hash a.drawn next))
          then ok (with_hash (c.hash a.drawn next) u)
          else fail not_found (codes "error.userNotFound"))
  unfolding validate_user find_by_username_or_email
  validate_user-change_password c user_id current next name password a u s stored only named knows
        new owned verified active =
      let h : Text = c.hash a.drawn next in
      let found : S.user_repository.find_one (is_named (some name) (some name))
            (S.user_repository.save (with_hash h u) a.users)
          ≡ some (with_hash h u) =
        find_one-save S.user_repository (is_named (some name) (some name)) a.users (with_hash h u)
          (λ j r at_j passes.
            S.user_repository.row-key a.users user_id u stored ∙ only j r at_j passes)
          (named_with_hash h (some name) (some name) u ∙ named) in
      let a1 : Accounts S = record a {
        users = S.user_repository.save (with_hash h u) a.users;
        drawn = suc a.drawn;
      } in
      let owned' : settings_of (with_hash h u) a1 ≡ some s = owned in
      ap (validate_user c name password) (changed_users c user_id current next a u stored knows new)
      ∙ rw (found, validate_user)
          (elim (Bool-cases (validate_hash c password (some h))) [
            | inl fits ↦ rw (fits, owned', verified, active) refl
            | inr fails ↦ rw fails refl
          ])
