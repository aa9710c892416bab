-- ===== src/Device/Offline.antt =====
-- Which devices the sweep takes offline: `sweepOfflineDevices` in
-- src/modules/device/device.service.ts.
use aio_t_cloud.Base.{
  Text, ◌==◌, eq_refl, ◌++◌, ℕ, ◌+◌, ◌≤◌, true, false, some, List, [], ◌∷◌, ◌≡◌, ◌⊎◌, refl, sym,
  ◌∙◌, inl, inr, arith, map, any, is_empty, All, Option-cases,
}
use mathlib.Core.List.{append-nil}
use aio_t_cloud.Constants.{offline}
use aio_t_cloud.Entities.{Device}
use aio_t_cloud.Json.{Json, Printer}
use aio_t_cloud.Repository.{patch}
use aio_t_cloud.Repository.Updates.{any-find}
use aio_t_cloud.Database.{Store, World, device_row, find_by_device_id}
use aio_t_cloud.Device.{
  is_stale, cutoff_at, went_offline, stale_devices, sweep_offline_devices, record_telemetry,
  seen_at, device_offline_threshold_ms,
}
use aio_t_cloud.Device.Presence.{record_telemetry_known}

abbrev pub go_offline : Device → Device
go_offline d = record d { status = offline }

List-cases : (xs : List Device) → (xs ≡ []) ⊎ (is_empty xs ≡ false)
List-cases [] = inl refl
List-cases (x ∷ xs) = inr refl

module _ {S : Store} where
  -- A stored device is listed as stale exactly if it is.
  any-stale_devices :
      (now : ℕ) (w : World S) (i : Text) (d : Device)
      → device_row i w ≡ some d
      → any (λ s. d.id == s.id) (stale_devices now w) ≡ is_stale (cutoff_at now) d
  any-stale_devices now w i d stored =
      any-find S.device_repository (is_stale (cutoff_at now)) w.devices i d stored

  nothing_stale :
      (now : ℕ) (w : World S) → stale_devices now w ≡ [] → sweep_offline_devices now w ≡ w
  unfolding sweep_offline_devices
  nothing_stale now w e = rw (e, sweep_offline_devices) refl

  -- The sweep sets exactly the stale devices (online, and last seen before the cutoff of 60 s) to
  -- OFFLINE, keeps every other device as it is, and announces one change for each stale device.
  pub sweep_offline_devices_lem :
      (now : ℕ) (w : World S)
      → let w' = sweep_offline_devices now w in
        ((i : Text)
          → device_row i w' ≡ patch (is_stale (cutoff_at now)) go_offline (device_row i w))
        × (w'.emitted ≡ w.emitted ++ map (went_offline now) (stale_devices now w))
        × (w'.telemetry ≡ w.telemetry)
        × (w'.unclaimed ≡ w.unclaimed)
        × (w'.published ≡ w.published)
  unfolding sweep_offline_devices
  sweep_offline_devices_lem now w = elim (List-cases (stale_devices now w)) [
    | inl e ↦ rw (nothing_stale now w e) (
      λ i. elim (Option-cases (device_row i w)) [
        | inl o ↦ ground arith
        | inr (d, o) ↦ ground (arith, any-stale_devices now w i d o)
      ],
      rw e (sym (append-nil w.emitted)),
      refl,
      refl,
      refl,
    )
    | inr e ↦
        let listed = λ (d : Device). any (λ s. d.id == s.id) (stale_devices now w) in
        let same : sweep_offline_devices now w ≡ record w {
          devices = S.device_repository.update listed go_offline w.devices;
          emitted = w.emitted ++ map (went_offline now) (stale_devices now w);
        } =
          rw (e, sweep_offline_devices) refl in
        rw same (
          λ i.
              S.device_repository.row-update listed go_offline w.devices i (λ s. refl)
              ∙ elim (Option-cases (device_row i w)) [
                | inl o ↦ ground arith
                | inr (d, o) ↦ ground (arith, any-stale_devices now w i d o)
              ],
          refl,
          refl,
          refl,
          refl,
        )
  ]

  -- After a sweep no device is stale.
  sweep_offline_devices_fresh :
      (now : ℕ) (w : World S) (i : Text) (d : Device)
      → device_row i (sweep_offline_devices now w) ≡ some d
      → is_stale (cutoff_at now) d ≡ false
  sweep_offline_devices_fresh now w i d stored = elim (Option-cases (device_row i w)) [
    | inl o ↦ ground (arith, (sweep_offline_devices_lem now w).0 i)
    | inr (c, o) ↦ ground (arith, (sweep_offline_devices_lem now w).0 i)
  ]

  no_stale_devices :
      (now : ℕ) (w : World S) (xs : List Device)
      → All
          (λ d.
            (device_row d.id (sweep_offline_devices now w) ≡ some d)
            × (is_stale (cutoff_at now) d ≡ true))
          xs
      → xs ≡ []
  no_stale_devices now w [] h = refl
  no_stale_devices now w (d ∷ xs) ((stored, stale), _) =
      absurd (ground (arith, sweep_offline_devices_fresh now w d.id d stored))

  -- A second sweep at the same moment does nothing: each silence is announced once.
  pub sweep_offline_devices_idempotent :
      (now : ℕ) (w : World S)
      → sweep_offline_devices now (sweep_offline_devices now w) ≡ sweep_offline_devices now w
  sweep_offline_devices_idempotent now w =
      let w' = sweep_offline_devices now w in
      let none_left =
        no_stale_devices now w (stale_devices now w')
          (S.device_repository.find_sound (is_stale (cutoff_at now)) w'.devices) in
      nothing_stale now w' none_left

  -- A device whose telemetry arrived at most 60 s ago is online after a sweep, whatever else the sweep
  -- takes offline.
  pub sweep_offline_devices_spares :
      (p : Printer) (t now : ℕ) (device_id : Text) (payload : Json) (d : Device) (w : World S)
      → find_by_device_id device_id w ≡ some d
      → now ≤ t + device_offline_threshold_ms
      → device_row d.id (sweep_offline_devices now (record_telemetry p t device_id payload w))
        ≡ some (seen_at t d)
  sweep_offline_devices_spares p t now device_id payload d w known soon =
      let w' = record_telemetry p t device_id payload w in
      ground (
        arith,
        (sweep_offline_devices_lem now w').0 d.id,
        (record_telemetry_known p t device_id payload d w known).0 d.id,
        eq_refl d.id,
      )
