-- ===== src/Accounts/DeviceSecrets.antt =====
-- DeviceSecretService and DeviceSecretGuard: src/modules/device/device-secret.service.ts and
-- src/modules/device/guards/device-secret.guard.ts.
use aio_t_cloud.Base.{
  Text, codes, ◌==◌, ◌&&◌, ℕ, suc, Bool, not, Option, none, some, is_some, is_truthy, if◌then◌else◌,
}
use aio_t_cloud.Constants.{not_found}
use aio_t_cloud.Entities.{Device}
use aio_t_cloud.Repository.{Repository}
use aio_t_cloud.Response.{Response, ok, fail}
use aio_t_cloud.Database.{Store, World, find_by_device_id}
use aio_t_cloud.Accounts.People.{Crypto}

pub record DeviceSecret : Type 0 where
  pub id : Text
  pub label : Option Text
  pub secret_hash : Text
  pub created_by_user_id : Text
  pub revoked_at : Option ℕ

pub record CreatedDeviceSecret : Type 0 where
  pub device_secret : DeviceSecret
  pub plaintext : Text

-- The table, and what has been drawn from the source of randomness.
pub record Vault (R : Repository DeviceSecret (λ s. s.id)) : Type 0 where
  pub secrets : R.Table
  pub drawn : ℕ

-- A secret that is live, with a hash.
abbrev pub is_live_hash : Text → DeviceSecret → Bool
is_live_hash h s = s.secret_hash == h && not (is_some s.revoked_at)

module _ {R : Repository DeviceSecret (λ s. s.id)} where
  abbrev pub new_secret : Crypto → Text → Option Text → Vault R → DeviceSecret
  new_secret c user_id label v = record {
    id = R.next_id v.secrets;
    label = label;
    secret_hash = c.digest (c.random v.drawn);
    created_by_user_id = user_id;
    revoked_at = none;
  }

  -- `create`
  unfoldable pub create_secret :
      Crypto → Text → Option Text → Vault R → CreatedDeviceSecret × Vault R
  create_secret c user_id label v =
      let s = new_secret c user_id label v in
      (
        record { device_secret = s; plaintext = c.random v.drawn },
        record { secrets = R.save s v.secrets; drawn = suc v.drawn },
      )

  -- `revoke`
  unfoldable pub revoke : ℕ → Text → Vault R → Response DeviceSecret × Vault R
  revoke now id v = elim (R.row v.secrets id) [
    | none ↦ (fail not_found (codes "error.deviceSecretNotFound"), v)
    | some s ↦
        let s' = record s { revoked_at = some now } in
        if is_some s.revoked_at
        then (ok s, v)
        else (ok s', record v { secrets = R.save s' v.secrets })
  ]

  -- `verify`
  unfoldable pub verify : Crypto → Text → Vault R → Bool
  verify c secret v = is_some (R.find_one (is_live_hash (c.digest secret)) v.secrets)

  -- `canActivate`: the device of the request, or the exception.
  unfoldable pub can_activate :
      {S : Store}
      → Crypto
      → (device_id : Option Text) → (secret : Option Text) → Vault R
      → World S
      → Option Device
  can_activate c (some d) (some secret) v w =
      if is_truthy d && is_truthy secret
      then if verify c secret v then find_by_device_id d w else none
      else none
  can_activate c _ _ v w = none
