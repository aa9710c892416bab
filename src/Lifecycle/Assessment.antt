-- ===== src/Lifecycle/Assessment.antt =====
-- The weighted score, the stage, and what the assessment stores.
use aio_t_cloud.Base.{
  Text, codes, ◌==◌, ℕ, ◌+◌, ◌-◌, ◌*◌, Bool, false, not, ◌&&◌, Option, none, some, or_default,
  is_some, List, [], ◌∷◌, leb, ltb, if◌then◌else◌,
}
use aio_t_cloud.Constants.{
  DeviceLifecycleStage, new, active, aging, maintenance_due, end_of_life, decommissioned,
  is_decommissioned,
}
use aio_t_cloud.Entities.{Device}
use aio_t_cloud.Response.{Response, ok, fail}
use aio_t_cloud.Constants.{not_found}
use aio_t_cloud.Scope.{AccessScope, in_scope}
use aio_t_cloud.Health.{
  round_div, percent_left, compute_age_score, compute_connectivity_score, ms_per_day, ms_per_month,
  Signed, tenths,
}
use aio_t_cloud.Database.{Store, World, update_device, save_device, find_owned}
use aio_t_cloud.Lifecycle.Readings.{BreachCounts, get_telemetry_breach_counts}

abbrev pub default_expected_lifespan_months : ℕ
default_expected_lifespan_months = 60

-- The scores of `factors`, in the order of the array.
pub record Factors : Type 0 where
  pub age : ℕ
  pub connectivity : ℕ
  pub telemetry_health : ℕ

-- `DeviceLifecycleAssessmentDto`; months are in tenths, and the texts for people are left out.
pub record LifecycleAssessment : Type 0 where
  pub device_id : Text
  pub stage : DeviceLifecycleStage
  pub score : ℕ
  pub installed_at : ℕ
  pub expected_lifespan_months : ℕ
  pub age_months : ℕ
  pub remaining_lifespan_months : Signed
  pub factors : Option Factors
  pub assessed_at : ℕ
  pub decommissioned_at : Option ℕ

-- The score of `computeTelemetryHealthFactor`.
unfoldable pub telemetry_health_score : BreachCounts → ℕ
telemetry_health_score c =
    let rest = percent_left c.breaches c.total_checks in if leb c.total_checks 0 then 100 else rest

-- `Math.round` of the weighted sum; the weights are 0.25, 0.35 and 0.4.
unfoldable pub weighted_score : Factors → ℕ
weighted_score f = round_div (25 * f.age + 35 * f.connectivity + 40 * f.telemetry_health) 100

abbrev pub stage_of_score : ℕ → DeviceLifecycleStage
stage_of_score score =
    if leb 80 score
    then active
    else if leb 60 score
    then aging
    else if leb 35 score
    then maintenance_due
    else end_of_life

-- `deriveStage`
unfoldable pub derive_stage : Device → ℕ → ℕ → ℕ → DeviceLifecycleStage
derive_stage d score installed_at now =
    if is_decommissioned d.lifecycle_stage
    then decommissioned
    else if ltb now (installed_at + 14 * ms_per_day) && not (is_some d.last_seen_at)
    then new
    else stage_of_score score

abbrev pub installed_since : Device → ℕ
installed_since d = or_default d.installed_at d.created_at

abbrev pub lifespan_of : Device → ℕ
lifespan_of d = or_default d.expected_lifespan_months default_expected_lifespan_months

-- `buildDecommissionedAssessment`, for a device whose assessment time is set.
abbrev pub decommissioned_assessment : ℕ → Device → LifecycleAssessment
decommissioned_assessment now d = record {
  device_id = d.id;
  stage = decommissioned;
  score = 0;
  installed_at = installed_since d;
  expected_lifespan_months = lifespan_of d;
  age_months =
      round_div (10 * (or_default d.lifecycle_assessed_at now - installed_since d)) ms_per_month;
  remaining_lifespan_months = record { is_negative = false; size = 0 };
  factors = none;
  assessed_at = or_default d.lifecycle_assessed_at now;
  decommissioned_at = d.decommissioned_at;
}

abbrev pub retire : ℕ → Device → Device
retire now d = record d {
  lifecycle_stage = decommissioned;
  decommissioned_at = some now;
  lifecycle_assessed_at = some now;
  lifecycle_score = none;
}

-- `UpdateDeviceLifecycleDto`: a property that is `undefined` is `none`, one that is `null` `some none`.
pub record LifecycleConfig : Type 0 where
  pub installed_at : Option (Option ℕ)
  pub expected_lifespan_months : Option (Option ℕ)

abbrev pub with_lifecycle_config : LifecycleConfig → Device → Device
with_lifecycle_config c d = record d {
  installed_at = or_default c.installed_at d.installed_at;
  expected_lifespan_months = or_default c.expected_lifespan_months d.expected_lifespan_months;
}

-- `{ lifecycleStage: stage, lifecycleScore: score, lifecycleAssessedAt: now }`
abbrev pub with_assessment : ℕ → DeviceLifecycleStage → ℕ → Device → Device
with_assessment now stage score d = record d {
  lifecycle_stage = stage;
  lifecycle_score = some score;
  lifecycle_assessed_at = some now;
}

-- `lifecycleStage: Not(DECOMMISSIONED)`
abbrev pub is_in_service : Device → Bool
is_in_service d = not (is_decommissioned d.lifecycle_stage)

module _ {S : Store} where
  unfoldable pub compute_factors : ℕ → Device → World S → Factors
  compute_factors now d w = record {
    age = compute_age_score (now - installed_since d) (lifespan_of d);
    connectivity = compute_connectivity_score d.status d.last_seen_at now;
    telemetry_health = telemetry_health_score (get_telemetry_breach_counts now d w);
  }

  abbrev pub score_of : ℕ → Device → World S → ℕ
  score_of now d w = weighted_score (compute_factors now d w)

  abbrev pub stage_of : ℕ → Device → World S → DeviceLifecycleStage
  stage_of now d w = derive_stage d (score_of now d w) (installed_since d) now

  -- What `assessDevice` returns.
  unfoldable pub assessment_of : ℕ → Device → World S → LifecycleAssessment
  assessment_of now d w = record {
    device_id = d.id;
    stage = stage_of now d w;
    score = score_of now d w;
    installed_at = installed_since d;
    expected_lifespan_months = lifespan_of d;
    age_months = round_div (10 * (now - installed_since d)) ms_per_month;
    remaining_lifespan_months =
        tenths (ms_per_month * lifespan_of d + installed_since d) now ms_per_month;
    factors = some (compute_factors now d w);
    assessed_at = now;
    decommissioned_at = d.decommissioned_at;
  }

  -- `assessDevice`
  unfoldable pub assess_device : ℕ → Device → World S → LifecycleAssessment × World S
  assess_device now d w = (
    assessment_of now d w,
    update_device d.id (with_assessment now (stage_of now d w) (score_of now d w)) w,
  )

  -- `getAssessment`
  unfoldable pub get_assessment :
      ℕ → AccessScope → Text → World S → Response LifecycleAssessment × World S
  get_assessment now scope id w =
      elim (S.device_repository.find_one (λ d. d.id == id && in_scope scope d.user_id d.factory_id)
        w.devices) [
          | none ↦ (fail not_found (codes "error.deviceNotFound"), w)
          | some d ↦ (ok (assess_device now d w).0, (assess_device now d w).1)
        ]

  -- `updateConfig`
  unfoldable pub update_lifecycle_config :
      ℕ → Text → Text → LifecycleConfig → World S → Response LifecycleAssessment × World S
  update_lifecycle_config now user_id id c w = elim (find_owned user_id id w) [
    | none ↦ (fail not_found (codes "error.deviceNotFound"), w)
    | some d ↦
        let d' = with_lifecycle_config c d in
        let w' = save_device d' w in (ok (assess_device now d' w').0, (assess_device now d' w').1)
  ]

  -- `decommission`
  unfoldable pub decommission : ℕ → Text → Text → World S → Response LifecycleAssessment × World S
  decommission now user_id id w = elim (find_owned user_id id w) [
    | none ↦ (fail not_found (codes "error.deviceNotFound"), w)
    | some d ↦ (ok (decommissioned_assessment now (retire now d)), save_device (retire now d) w)
  ]

  -- The loop of `assessAllDevices`, over the devices as they were loaded.
  unfoldable pub assess_each : ℕ → List Device → World S → World S
  assess_each now [] w = w
  assess_each now (d ∷ ds) w = assess_each now ds (assess_device now d w).1

  -- `assessAllDevices`; `now` is one reading of the clock for the whole round.
  unfoldable pub assess_all_devices : ℕ → World S → World S
  assess_all_devices now w = assess_each now (S.device_repository.find is_in_service w.devices) w
