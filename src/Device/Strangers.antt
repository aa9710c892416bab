-- ===== src/Device/Strangers.antt =====
-- Devices that nobody has registered: what their messages change, in
-- src/modules/device/device.service.ts.
use aio_t_cloud.Base.{
  Text, ◌==◌, eq_iff, ℕ, Option, none, some, is_some, ◌≡◌, ◌⊎◌, false, refl, arith, inl, inr,
  Option-cases, if◌then◌else◌,
}
use aio_t_cloud.Json.{Json, Printer, text_or_json}
use aio_t_cloud.Entities.{UnclaimedDevice}
use aio_t_cloud.Repository.Updates.{row-update_one}
use aio_t_cloud.Database.{Store, World}
use aio_t_cloud.Device.{new_sighting, seen_again, find_unclaimed, record_unclaimed_device}

module _ {S : Store} where
  abbrev pub sighting_row : Text → World S → Option UnclaimedDevice
  sighting_row i w = S.unclaimed_repository.row w.unclaimed i

  -- A message of a stranger, seen on a topic.
  pub record IsSeen (p : Printer) (now : ℕ) (device_id topic : Text) (payload : Json)
      (u : UnclaimedDevice) (w w' : World S) : Type 0 where
    pub sightings :
        (i : Text) → sighting_row i w' ≡ (if u.id == i then some u else sighting_row i w)
    pub named : u.device_id ≡ device_id
    pub topic_kept : u.last_topic ≡ topic
    pub payload_kept : u.last_payload ≡ some (text_or_json p payload)
    pub seen : u.last_seen_at ≡ now
    pub devices : w'.devices ≡ w.devices
    pub telemetry : w'.telemetry ≡ w.telemetry
    pub emitted : w'.emitted ≡ w.emitted

  -- A sighting follows the one of the device that was stored, or it is new.
  abbrev pub Follows : Text → UnclaimedDevice → World S → Type 0
  Follows device_id u w =
      ((v : UnclaimedDevice) × (sighting_row v.id w ≡ some v)
        × (v.device_id ≡ device_id)
        × (u.id ≡ v.id)
        × (u.ignored_at ≡ v.ignored_at))
      ⊎ (((i : Text) (v : UnclaimedDevice)
            → sighting_row i w ≡ some v
            → (v.device_id == device_id) ≡ false)
          × (sighting_row u.id w ≡ none)
          × (u.ignored_at ≡ none))

  -- A message of a device that is not registered stores one sighting with the topic, the payload and
  -- the time, and changes no device, no telemetry and no event. The sighting takes the place of one
  -- that was stored for the device, with its place on the ignore list kept; or none was stored, and the
  -- sighting is a new one that is not ignored. The caller is told whether it is ignored.
  pub record_unclaimed_device_lem :
      (p : Printer) (now : ℕ) (device_id topic : Text) (payload : Json) (w : World S)
      → (u : UnclaimedDevice) × IsSeen p now device_id topic payload u w
          (record_unclaimed_device p now device_id topic payload w).1
        × Follows device_id u w
        × ((record_unclaimed_device p now device_id topic payload w).0 ≡ is_some u.ignored_at)
  unfolding record_unclaimed_device
  record_unclaimed_device_lem p now device_id topic payload w =
      let last = text_or_json p payload in
      elim (Option-cases (find_unclaimed device_id w)) [
        | inl o ↦ (
          new_sighting (S.unclaimed_repository.next_id w.unclaimed) device_id topic last now,
          record {
            sightings = λ i. ground (
              arith,
              S.unclaimed_repository.row-save
                  (new_sighting (S.unclaimed_repository.next_id w.unclaimed) device_id topic last
                    now)
                  w.unclaimed i,
            );
            named = refl;
            topic_kept = refl;
            payload_kept = refl;
            seen = refl;
            devices = ground arith;
            telemetry = ground arith;
            emitted = ground arith;
          },
          inr (
            λ i v stored.
                S.unclaimed_repository.find_one-none (λ x. x.device_id == device_id) w.unclaimed i v
                  o stored,
            S.unclaimed_repository.next_id_fresh w.unclaimed,
            refl,
          ),
          ground arith,
        )
        | inr (v, o) ↦
            let (stored, same) =
              S.unclaimed_repository.find_one-some (λ x. x.device_id == device_id) w.unclaimed v
                o in
            (
              seen_again topic last now v,
              record {
                sightings = λ i. ground (
                  arith,
                  row-update_one S.unclaimed_repository v (seen_again topic last now) w.unclaimed i
                      (λ x. refl) stored,
                );
                named = (eq_iff v.device_id device_id).0 same;
                topic_kept = refl;
                payload_kept = refl;
                seen = refl;
                devices = ground arith;
                telemetry = ground arith;
                emitted = ground arith;
              },
              inl (v, stored, (eq_iff v.device_id device_id).0 same, refl, refl),
              ground arith,
            )
      ]
