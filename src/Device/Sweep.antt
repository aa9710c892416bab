-- ===== src/Device/Sweep.antt =====
-- The periodic sweep of silent devices, `sweepOfflineDevices`.
use aio_t_cloud.Base.{
  ◌==◌, ℕ, ◌-◌, ◌*◌, ◌++◌, Bool, false, none, some, ◌&&◌, List, map, any, is_empty, ltb,
  if◌then◌else◌,
}
use aio_t_cloud.Constants.{offline, is_online}
use aio_t_cloud.Entities.{Device}
use aio_t_cloud.Database.{Store, World, Event, device_status}

-- `DEVICE_OFFLINE_THRESHOLD_MS`
abbrev pub device_offline_threshold_ms : ℕ
device_offline_threshold_ms = 60 * 1000

-- `status: ONLINE, lastSeenAt: LessThan(cutoff)`; SQL compares no NULL.
abbrev pub is_stale : ℕ → Device → Bool
is_stale cutoff d =
    is_online d.status && elim d.last_seen_at [ none ↦ false | some t ↦ ltb t cutoff ]

abbrev pub cutoff_at : ℕ → ℕ
cutoff_at now = now - device_offline_threshold_ms

abbrev pub went_offline : ℕ → Device → Event
went_offline now d = device_status d.device_id offline now

module _ {S : Store} where
  abbrev pub stale_devices : ℕ → World S → List Device
  stale_devices now w = S.device_repository.find (is_stale (cutoff_at now)) w.devices

  -- `sweepOfflineDevices`
  unfoldable pub sweep_offline_devices : ℕ → World S → World S
  sweep_offline_devices now w =
      let stale = stale_devices now w in
      if is_empty stale then w else record w {
        devices =
            S.device_repository.update (λ d. any (λ s. d.id == s.id) stale)
              (λ d. record d { status = offline }) w.devices;
        emitted = w.emitted ++ map (went_offline now) stale;
      }
