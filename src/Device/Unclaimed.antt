-- ===== src/Device/Unclaimed.antt =====
-- Devices that publish before anyone has registered them: the sightings and the ignore list.
use aio_t_cloud.Base.{
  Text, codes, ◌==◌, ℕ, Bool, false, not, ◌||◌, Option, none, some, is_some, List,
}
use aio_t_cloud.Entities.{UnclaimedDevice}
use aio_t_cloud.Json.{Json, Printer, text_or_json}
use aio_t_cloud.Response.{Response, ok, fail}
use aio_t_cloud.Constants.{not_found}
use aio_t_cloud.Database.{Store, World}

-- `create({ deviceId, lastTopic, lastPayload, lastSeenAt })`
abbrev pub new_sighting : Text → Text → Text → Text → ℕ → UnclaimedDevice
new_sighting id device_id topic payload now = record {
  id = id;
  device_id = device_id;
  last_topic = topic;
  last_payload = some payload;
  last_seen_at = now;
  ignored_at = none;
}

abbrev pub seen_again : Text → Text → ℕ → UnclaimedDevice → UnclaimedDevice
seen_again topic payload now u = record u {
  last_topic = topic;
  last_payload = some payload;
  last_seen_at = now;
}

module _ {S : Store} where
  abbrev pub find_unclaimed : Text → World S → Option UnclaimedDevice
  find_unclaimed device_id w =
      S.unclaimed_repository.find_one (λ u. u.device_id == device_id) w.unclaimed

  -- `recordUnclaimedDevice`: whether the device is on the ignore list, and the new state.
  unfoldable pub record_unclaimed_device :
      Printer → ℕ → Text → Text → Json → World S → Bool × World S
  record_unclaimed_device p now device_id topic payload w =
      let last_payload = text_or_json p payload in
      elim (find_unclaimed device_id w) [
        | some u ↦ (
          is_some u.ignored_at,
          record w {
            unclaimed =
                S.unclaimed_repository.update (λ x. x.id == u.id)
                  (seen_again topic last_payload now) w.unclaimed;
          },
        )
        | none ↦ (
          false,
          record w {
            unclaimed =
                S.unclaimed_repository.save
                  (new_sighting (S.unclaimed_repository.next_id w.unclaimed) device_id topic
                    last_payload now)
                  w.unclaimed;
          },
        )
      ]

  -- `listUnclaimedDevices`; the order of the rows is not modelled.
  unfoldable pub list_unclaimed_devices : Bool → World S → Response (List UnclaimedDevice)
  list_unclaimed_devices include_ignored w =
      ok (
        S.unclaimed_repository.find (λ u. include_ignored || not (is_some u.ignored_at))
          w.unclaimed)

  abbrev set_ignored : Option ℕ → UnclaimedDevice → World S → Response UnclaimedDevice × World S
  set_ignored at u w = (
    ok (record u { ignored_at = at }),
    record w {
      unclaimed =
          S.unclaimed_repository.update (λ x. x.id == u.id) (λ x. record x { ignored_at = at })
            w.unclaimed;
    },
  )

  -- `ignoreUnclaimedDevice`
  unfoldable pub ignore_unclaimed_device : ℕ → Text → World S → Response UnclaimedDevice × World S
  ignore_unclaimed_device now device_id w = elim (find_unclaimed device_id w) [
    | none ↦ (fail not_found (codes "error.unclaimedDeviceNotFound"), w)
    | some u ↦ set_ignored (some now) u w
  ]

  -- `unignoreUnclaimedDevice`
  unfoldable pub unignore_unclaimed_device : Text → World S → Response UnclaimedDevice × World S
  unignore_unclaimed_device device_id w = elim (find_unclaimed device_id w) [
    | none ↦ (fail not_found (codes "error.unclaimedDeviceNotFound"), w)
    | some u ↦ set_ignored none u w
  ]
