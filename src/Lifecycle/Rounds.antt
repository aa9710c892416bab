-- ===== src/Lifecycle/Rounds.antt =====
-- The daily round over all devices, and what retiring a device means to it.
use aio_t_cloud.Base.{
  Text, ◌==◌, eq_iff, eq_refl, ℕ, false, none, some, List, [], ◌∷◌, ◌≡◌, ◌⊎◌, refl, sym, ap, ◌∙◌,
  arith, any, All, All-map, Bool-cases, Option-cases, inl, inr, if◌then◌else◌,
}
use aio_t_cloud.Constants.{decommissioned}
use aio_t_cloud.Entities.{Device}
use aio_t_cloud.Repository.{patch}
use aio_t_cloud.Repository.Updates.{any-find, row-update_one}
use aio_t_cloud.Database.{Store, World, device_row}
use aio_t_cloud.Lifecycle.{
  compute_factors, get_telemetry_breach_counts, assess_device, assess_each, assess_all_devices,
  is_in_service, with_assessment, assessment_of, derive_stage, stage_of, score_of,
}

module _ {S : Store} where
  -- The device as an assessment leaves it.
  abbrev pub assessed : ℕ → World S → Device → Device
  assessed now w d = with_assessment now (stage_of now d w) (score_of now d w) d

  -- What an assessment of a device reads besides the device.
  abbrev SameReadings : World S → World S → Type 0
  SameReadings w v = (v.telemetry ≡ w.telemetry) × (v.templates ≡ w.templates)

  assessed_same :
      (now : ℕ) (d e : Device) (w v : World S)
      → SameReadings w v
      → with_assessment now (stage_of now d v) (score_of now d v) e
        ≡ with_assessment now (stage_of now d w) (score_of now d w) e
  unfolding compute_factors get_telemetry_breach_counts
  assessed_same now d e w v (t, u) = rw (t, u) refl

  -- The step of the round that assesses a device.
  assess_device_hit :
      (now : ℕ) (w v : World S) (d : Device)
      → SameReadings w v
      → (device_row d.id v ≡ some d) ⊎ (device_row d.id v ≡ some (assessed now w d))
      → device_row d.id (assess_device now d v).1 ≡ some (assessed now w d)
  unfolding assess_device
  assess_device_hit now w v d same before =
      S.device_repository.row-update (λ s. s.id == d.id)
        (with_assessment now (stage_of now d v) (score_of now d v)) v.devices d.id (λ s. refl)
      ∙ elim before [
        | inl fresh ↦
            ap
              (patch (λ s. s.id == d.id)
                (with_assessment now (stage_of now d v) (score_of now d v)))
              fresh
            ∙ rw (eq_refl d.id) (ap some (assessed_same now d d w v same))
        | inr done ↦
            ap
              (patch (λ s. s.id == d.id)
                (with_assessment now (stage_of now d v) (score_of now d v)))
              done
            ∙ rw (eq_refl d.id) (ap some (assessed_same now d (assessed now w d) w v same))
      ]

  -- A step that assesses another device.
  assess_device_miss :
      (now : ℕ) (v : World S) (d e : Device)
      → (d.id == e.id) ≡ false
      → device_row d.id (assess_device now e v).1 ≡ device_row d.id v
  unfolding assess_device
  assess_device_miss now v d e miss =
      S.device_repository.row-update (λ s. s.id == e.id)
        (with_assessment now (stage_of now e v) (score_of now e v)) v.devices d.id (λ s. refl)
      ∙ elim (Option-cases (device_row d.id v)) [
        | inl o ↦ ground arith
        | inr (c, o) ↦ ground (
          arith,
          S.device_repository.row-key v.devices d.id c o,
          eq_iff c.id e.id,
          eq_iff d.id e.id,
        )
      ]

  assess_device_same :
      (now : ℕ) (w v : World S) (e : Device)
      → SameReadings w v
      → SameReadings w (assess_device now e v).1
  unfolding assess_device
  assess_device_same now w v e same = same

  -- Devices that `w` holds, as they were loaded from it.
  abbrev AreLoaded : World S → List Device → Type 0
  AreLoaded w ds = All (λ d. device_row d.id w ≡ some d) ds

  -- A device part way through the round.
  assess_each_row :
      (now : ℕ) (w v : World S) (ds : List Device) (d : Device)
      → AreLoaded w ds
      → SameReadings w v
      → device_row d.id w ≡ some d
      → (device_row d.id v ≡ some d) ⊎ (device_row d.id v ≡ some (assessed now w d))
      → device_row d.id (assess_each now ds v)
        ≡ (if any (λ e. d.id == e.id) ds then some (assessed now w d) else device_row d.id v)
  unfolding assess_each
  assess_each_row now w v [] d loaded same stored before = refl
  assess_each_row now w v (e ∷ ds) d (e_loaded, loaded) same stored before =
      let v' = (assess_device now e v).1 in
      let same' = assess_device_same now w v e same in
      elim (Bool-cases (d.id == e.id)) [
        | inl hit ↦
            let is : e ≡ d = ground (arith, eq_iff d.id e.id) in
            let assessed_now : device_row d.id v' ≡ some (assessed now w d) =
              rw is (assess_device_hit now w v d same before) in
            assess_each_row now w v' ds d loaded same' stored (inr assessed_now) ∙ ground arith
        | inr miss ↦
            let kept : device_row d.id v' ≡ device_row d.id v = assess_device_miss now v d e miss in
            assess_each_row now w v' ds d loaded same' stored
              (elim before [ inl e ↦ inl (kept ∙ e) | inr e ↦ inr (kept ∙ e) ])
            ∙ ground arith
      ]

  assess_each_absent :
      (now : ℕ) (v : World S) (ds : List Device) (i : Text)
      → device_row i v ≡ none
      → device_row i (assess_each now ds v) ≡ none
  unfolding assess_each assess_device
  assess_each_absent now v [] i h = h
  assess_each_absent now v (e ∷ ds) i h = assess_each_absent now (assess_device now e v).1 ds i (
      S.device_repository.row-update (λ s. s.id == e.id)
        (with_assessment now (stage_of now e v) (score_of now e v)) v.devices i (λ s. refl)
      ∙ ap (patch (λ s. s.id == e.id) (with_assessment now (stage_of now e v) (score_of now e v)))
          h)

  -- The daily round, which assesses the devices one after the other, comes to the same as assessing
  -- every device in service at once, from the state before the round; retired devices are kept as
  -- they are.
  pub assess_all_devices_row :
      (now : ℕ) (w : World S) (i : Text)
      → device_row i (assess_all_devices now w)
        ≡ patch is_in_service (assessed now w) (device_row i w)
  unfolding assess_all_devices
  assess_all_devices_row now w i = elim (Option-cases (device_row i w)) [
    | inl o ↦ assess_each_absent now w _ i o ∙ sym (ap (patch is_in_service (assessed now w)) o)
    | inr (d, o) ↦
        let key : d.id ≡ i = S.device_repository.row-key w.devices i d o in
        let stored : device_row d.id w ≡ some d = ap (λ j. device_row j w) key ∙ o in
        ap (λ j. device_row j (assess_all_devices now w)) (sym key)
        ∙ assess_each_row now w w (S.device_repository.find is_in_service w.devices) d
            (All-map _ _ (λ x h. h.0) _ (S.device_repository.find_sound is_in_service w.devices))
            (refl, refl) stored (inl stored)
        ∙ ground (arith, any-find S.device_repository is_in_service w.devices d.id d stored)
  ]

  -- Reading the assessment of a retired device keeps it retired, but gives it a score again.
  pub assess_device_retired :
      (now : ℕ) (d : Device) (w : World S)
      → d.lifecycle_stage ≡ decommissioned
      → device_row d.id w ≡ some d
      → ((assess_device now d w).0.stage ≡ decommissioned)
        × (device_row d.id (assess_device now d w).1
            ≡ some (with_assessment now decommissioned (score_of now d w) d))
  unfolding assess_device assessment_of derive_stage
  assess_device_retired now d w h stored =
      let retired : stage_of now d w ≡ decommissioned = ground arith in
      (
        retired,
        row-update_one S.device_repository d
              (with_assessment now (stage_of now d w) (score_of now d w)) w.devices d.id (λ s. refl)
              stored
            ∙ ground (arith, eq_refl d.id),
      )
